-- ===== src/Roundup.antt =====
-- The rounding of capacities that buffer.c and map.c share: `size |= size >> k` for k = 1, 2, 4,
-- 8, 16 and 32 fills in every bit below the highest one.
use native.Mathlib.Nat.{pow-suc, div-div-eq-div-mul, div-one}
use libreactorng.Prelude.{
  ℕ, zero, suc, ◌+◌, ◌*◌, ◌/◌, ◌%◌, ◌^◌, ◌≤◌, ◌<◌, ◌≡◌, refl, bit_or, arith, max, ap, ◌↔◌, ◌∙◌, sym,
}
use libreactorng.Prelude.Bits.{bit_or-half, bit_or-low}

-- size |= size >> k
abbrev pub fill : ℕ → ℕ → ℕ
fill k s = bit_or s (s / 2 ^ k)

unfoldable pub fill_all : ℕ → ℕ
fill_all s = fill 32 (fill 16 (fill 8 (fill 4 (fill 2 (fill 1 s)))))

-- The filling commutes with halving, and its lowest bit looks at all bits below `w`.
record Fills (w : ℕ) (f : ℕ → ℕ) : Type 0 where
  half : (s : ℕ) → f s / 2 ≡ f (s / 2)
  low : (s : ℕ) → (f s % 2 ≡ 0) ↔ (s % w ≡ 0)

div-halves : (s k : ℕ) → s / 2 / 2 ^ k ≡ s / 2 ^ k / 2
div-halves s k =
    div-div-eq-div-mul s 2 (2 ^ k)
    ∙ (ap (λ (t : ℕ). s / t) (omega arith) ∙ sym (div-div-eq-div-mul s (2 ^ k) 2))

div-pow-suc : (s k : ℕ) → s / 2 ^ suc k ≡ s / 2 / 2 ^ k
div-pow-suc s k =
    ap (λ (t : ℕ). s / t) (omega (arith, pow-suc 2 k)) ∙ sym (div-div-eq-div-mul s 2 (2 ^ k))

module _ {w : ℕ} {f : ℕ → ℕ} (v : Fills w f) where
  shift : (k s : ℕ) → f s / 2 ^ k ≡ f (s / 2 ^ k)
  shift zero s = div-one (f s) ∙ ap f (sym (div-one s))
  shift (suc k) s =
      div-pow-suc (f s) k
      ∙ (ap (λ (t : ℕ). t / 2 ^ k) (v.half s) ∙ (shift k (s / 2) ∙ ap f (sym (div-pow-suc s k))))

  half-fill : (k s : ℕ) → fill k (f s) / 2 ≡ fill k (f (s / 2))
  half-fill k s = rw (bit_or-half, ← div-halves, v.half)

  low-fill : (k s : ℕ) → fill k (f s) % 2 ≡ max (f s % 2) (f (s / 2 ^ k) % 2)
  low-fill k s = rw (bit_or-low, shift k s)

  fill-low : (k s : ℕ) → (fill k (f s) % 2 ≡ 0) ↔ ((s % w ≡ 0) × (s / 2 ^ k % w ≡ 0))
  fill-low k s = ground (arith, low-fill k s, v.low s, v.low (s / 2 ^ k))

Fills-id : Fills (2 ^ 1) (λ s. s)
Fills-id = record { half = λ s. refl; low = λ s. ground arith }

fill1-Fills : Fills (2 ^ 2) (fill 1)
fill1-Fills = record {
  half = half-fill Fills-id 1;
  low = λ s. ground (arith, fill-low Fills-id 1 s);
}

fill2-Fills : Fills (2 ^ 4) (λ s. fill 2 (fill 1 s))
fill2-Fills = record {
  half = half-fill fill1-Fills 2;
  low = λ s. ground (arith, fill-low fill1-Fills 2 s);
}

fill3-Fills : Fills (2 ^ 8) (λ s. fill 4 (fill 2 (fill 1 s)))
fill3-Fills = record {
  half = half-fill fill2-Fills 4;
  low = λ s. ground (arith, fill-low fill2-Fills 4 s);
}

fill4-Fills : Fills (2 ^ 16) (λ s. fill 8 (fill 4 (fill 2 (fill 1 s))))
fill4-Fills = record {
  half = half-fill fill3-Fills 8;
  low = λ s. ground (arith, fill-low fill3-Fills 8 s);
}

fill5-Fills : Fills (2 ^ 32) (λ s. fill 16 (fill 8 (fill 4 (fill 2 (fill 1 s)))))
fill5-Fills = record {
  half = half-fill fill4-Fills 16;
  low = λ s. ground (arith, fill-low fill4-Fills 16 s);
}

fill_all-Fills : Fills (2 ^ 64) fill_all
unfolding fill_all
fill_all-Fills = record {
  half = half-fill fill5-Fills 32;
  low = λ s. ground (arith, fill-low fill5-Fills 32 s);
}

-- Below 2 ^ 64 the filling gives one less than the least power of two above its argument.
pub fill_all-power :
    (n s : ℕ)
    → s ≤ n
    → s < 2 ^ 64
    → (k : ℕ) × (fill_all s + 1 ≡ 2 ^ k) × (s < 2 ^ k) × (2 ^ k ≤ max 1 (2 * s))
fill_all-power n zero h small = (0, unfold fill_all in refl, omega arith, omega arith)
fill_all-power zero (suc s) h small = absurd (omega arith)
fill_all-power (suc n) (suc s) h small =
    let (k, e, above, least) = fill_all-power n (suc s / 2) (omega arith) (omega arith) in
    (
      suc k,
      ground (arith, fill_all-Fills.half (suc s), fill_all-Fills.low (suc s), e, pow-suc 2 k),
      omega (arith, above, pow-suc 2 k),
      omega (arith, least, above, pow-suc 2 k),
    )
