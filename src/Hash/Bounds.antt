-- ===== src/Hash/Bounds.antt =====
-- The memory that the hash functions of src/reactor/hash.c read.
use libreactorng.Prelude.{
  ℕ, ◌+◌, ◌/◌, ◌^◌, ◌≤◌, ◌<◌, ◌≡◌, refl, Option, some, List, ◌>>=◌, length, get_elem?,
  get_elem?-within, arith, lt_or_ge, inl, inr, ap, ◌∙◌,
}
use libreactorng.Prelude.Words.{sub64}
use libreactorng.Prelude.Memory.{read, read_lem}
use libreactorng.Hash
use libreactorng.Hash.{Pair64, Seeds}

-- The computation returns.
abbrev pub Returns : {A : Type 0} → Option A → Type 0
Returns {A} m = (a : A) × (m ≡ some a)

pub chain :
    {A : Type 0} {B : Type 0} (m : Option A) (f : A → Option B)
    → Returns m
    → ((a : A) → Returns (f a))
    → Returns (m >>= f)
chain m f (a, e) k = let (b, e') = k a in (b, ap (λ x. x >>= f) e ∙ e')

-- The computation returns an unsigned 64-bit integer.
abbrev pub ReturnsWord : Option ℕ → Type 0
ReturnsWord m = (h : ℕ) × (m ≡ some h) × (h < 2 ^ 64)

pub chain_word :
    {A : Type 0} (m : Option A) (f : A → Option ℕ)
    → Returns m
    → ((a : A) → ReturnsWord (f a))
    → ReturnsWord (m >>= f)
chain_word m f (a, e) k = let (b, e', small) = k a in (b, ap (λ x. x >>= f) e ∙ e', small)

fetch64_lem : (s : List ℕ) (p : ℕ) → p + 8 ≤ length s → Returns (Hash.fetch64 s p)
unfolding Hash.fetch64
fetch64_lem s p h =
    let (bs, got, len, at) = read_lem s p 8 h in
    chain (read s p 8) (λ x. some (Hash.word x)) (bs, got) (λ x. (Hash.word x, refl))

fetch32_lem : (s : List ℕ) (p : ℕ) → p + 4 ≤ length s → Returns (Hash.fetch32 s p)
unfolding Hash.fetch32
fetch32_lem s p h =
    let (bs, got, len, at) = read_lem s p 4 h in
    chain (read s p 4) (λ x. some (Hash.word x)) (bs, got) (λ x. (Hash.word x, refl))

pub hash_len_16_lem : (u v mul : ℕ) → Hash.hash_len_16 u v mul < 2 ^ 64
unfolding Hash.hash_len_16
hash_len_16_lem u v mul = omega arith

-- A fetch of 8 bytes inside `s` and what is done with it.
pub then64 :
    (s : List ℕ) (p : ℕ) (f : ℕ → Option ℕ)
    → p + 8 ≤ length s
    → ((a : ℕ) → ReturnsWord (f a))
    → ReturnsWord (Hash.fetch64 s p >>= f)
then64 s p f h = chain_word (Hash.fetch64 s p) f (fetch64_lem s p h)

then32 :
    (s : List ℕ) (p : ℕ) (f : ℕ → Option ℕ)
    → p + 4 ≤ length s
    → ((a : ℕ) → ReturnsWord (f a))
    → ReturnsWord (Hash.fetch32 s p >>= f)
then32 s p f h = chain_word (Hash.fetch32 s p) f (fetch32_lem s p h)

then8 :
    (s : List ℕ) (p : ℕ) (f : ℕ → Option ℕ)
    → p < length s
    → ((a : ℕ) → ReturnsWord (f a))
    → ReturnsWord (get_elem? s p >>= f)
then8 s p f h = chain_word (get_elem? s p) f (get_elem?-within s p h)

module _ (s : List ℕ) (len : ℕ) (inside : len ≤ length s) (fits : len < 2 ^ 64) where
  hash_len_8_to_16_lem : 8 ≤ len → ReturnsWord (Hash.hash_len_8_to_16 s len)
  unfolding Hash.hash_len_8_to_16
  hash_len_8_to_16_lem more =
      then64 s 0 _ (omega arith)
        (λ a. then64 s (sub64 len 8) _ (omega arith) (λ b. (_, refl, hash_len_16_lem _ _ _)))

  hash_len_4_to_7_lem : 4 ≤ len → ReturnsWord (Hash.hash_len_4_to_7 s len)
  unfolding Hash.hash_len_4_to_7
  hash_len_4_to_7_lem more =
      then32 s 0 _ (omega arith)
        (λ a. then32 s (sub64 len 4) _ (omega arith) (λ b. (_, refl, hash_len_16_lem _ _ _)))

  hash_len_1_to_3_lem : 1 ≤ len → ReturnsWord (Hash.hash_len_1_to_3 s len)
  unfolding Hash.hash_len_1_to_3
  hash_len_1_to_3_lem more = then8 s 0 _ (omega arith) (λ a.
      then8 s (len / 2) _ (omega arith)
        (λ b. then8 s (sub64 len 1) _ (omega arith) (λ c. (_, refl, omega arith))))

  pub hash_len_17_to_32_lem : 17 ≤ len → ReturnsWord (Hash.hash_len_17_to_32 s len)
  unfolding Hash.hash_len_17_to_32
  hash_len_17_to_32_lem more = then64 s 0 _ (omega arith) (λ a. then64 s 8 _ (omega arith) (λ b.
      then64 s (sub64 len 8) _ (omega arith)
        (λ c. then64 s (sub64 len 16) _ (omega arith) (λ d. (_, refl, hash_len_16_lem _ _ _)))))

  pub hash_len_33_to_64_lem : 33 ≤ len → ReturnsWord (Hash.hash_len_33_to_64 s len)
  unfolding Hash.hash_len_33_to_64
  hash_len_33_to_64_lem more = then64 s 0 _ (omega arith) (λ a. then64 s 8 _ (omega arith) (λ b.
      then64 s (sub64 len 8) _ (omega arith) (λ c. then64 s (sub64 len 16) _ (omega arith) (λ d.
        then64 s 16 _ (omega arith) (λ e. then64 s 24 _ (omega arith) (λ f.
          then64 s (sub64 len 32) _ (omega arith) (λ g.
            then64 s (sub64 len 24) _ (omega arith) (λ h. (_, refl, hash_len_16_lem _ _ _)))))))))

  pub hash_len_0_to_16_lem : ReturnsWord (Hash.hash_len_0_to_16 s len)
  unfolding Hash.hash_len_0_to_16
  hash_len_0_to_16_lem = elim (lt_or_ge len 8) [
    | inr more ↦ (let (h, e, small) = hash_len_8_to_16_lem more in (h, ground (arith, e), small))
    | inl less ↦ elim (lt_or_ge len 4) [
      | inr more ↦ (let (h, e, small) = hash_len_4_to_7_lem more in (h, ground (arith, e), small))
      | inl less4 ↦ elim (lt_or_ge len 1) [
        | inr more ↦ (let (h, e, small) = hash_len_1_to_3_lem more in (h, ground (arith, e), small))
        | inl less1 ↦ (Hash.k2, ground arith, omega arith)
      ]
    ]
  ]

-- A fetch in front of a computation of another type.
fetch_then :
    {A : Type 0} (s : List ℕ) (p : ℕ) (f : ℕ → Option A)
    → p + 8 ≤ length s
    → ((a : ℕ) → Returns (f a))
    → Returns (Hash.fetch64 s p >>= f)
fetch_then s p f h = chain (Hash.fetch64 s p) f (fetch64_lem s p h)

weak_hash_len_32_with_seeds_lem :
    (s : List ℕ) (p a b : ℕ)
    → p + 32 ≤ length s
    → Returns (Hash.weak_hash_len_32_with_seeds s p a b)
unfolding Hash.weak_hash_len_32_with_seeds
weak_hash_len_32_with_seeds_lem s p a b h = fetch_then s p _ (omega arith) (λ w.
    fetch_then s (p + 8) _ (omega arith) (λ x.
      fetch_then s (p + 16) _ (omega arith)
        (λ y. fetch_then s (p + 24) _ (omega arith) (λ z. (_, refl)))))

pub mix_lem :
    (s : List ℕ) (p mul factor : ℕ) (t : Seeds)
    → p + 64 ≤ length s
    → Returns (Hash.mix s p mul factor t)
unfolding Hash.mix
mix_lem s p mul factor t h = fetch_then s (p + 8) _ (omega arith) (λ f8.
    fetch_then s (p + 48) _ (omega arith) (λ f48. fetch_then s (p + 40) _ (omega arith) (λ f40.
      chain _ _ (weak_hash_len_32_with_seeds_lem s p _ _ (omega arith)) (λ v.
        fetch_then s (p + 16) _ (omega arith) (λ f16.
          chain _ _ (weak_hash_len_32_with_seeds_lem s (p + 32) _ _ (omega arith))
            (λ w. (_, refl)))))))
