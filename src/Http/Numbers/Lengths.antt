-- ===== src/Http/Numbers/Lengths.antt =====
-- `http_u32_len` counts the decimal digits.
use libreactorng.Prelude.{
  ℕ, zero, suc, ◌+◌, ◌-◌, ◌*◌, ◌/◌, ◌%◌, ◌^◌, ◌≤◌, ◌<◌, ◌≡◌, ◌⊎◌, refl, ◌∙◌, ap, sym, Option, some,
  ltb, if◌then◌else◌, ◌>>=◌, get_elem?, bit_or, length, arith, lt_or_ge, inl, inr,
}
use libreactorng.Prelude.Bits.{bit_or-digit, bit_or-zero}
use libreactorng.Http.Numbers
use libreactorng.Http.Numbers.Digits.{bit_length_below, bit_length_above, decimal, length-decimal}

-- The statements of `http_u32_len` behind the estimate `t`.
abbrev corrected : ℕ → ℕ → Option ℕ
corrected n t = get_elem? Numbers.pow_10 t >>= λ power.
    some ((t + (2 ^ 32 - (if ltb n power then 1 else 0)) + 1) % 2 ^ 32)

power_at : (k : ℕ) → k < 9 → get_elem? Numbers.pow_10 (suc k) ≡ some (10 ^ suc k)
unfolding Numbers.pow_10
power_at zero h = refl
power_at (suc zero) h = refl
power_at (suc (suc zero)) h = refl
power_at (suc (suc (suc zero))) h = refl
power_at (suc (suc (suc (suc zero)))) h = refl
power_at (suc (suc (suc (suc (suc zero))))) h = refl
power_at (suc (suc (suc (suc (suc (suc zero)))))) h = refl
power_at (suc (suc (suc (suc (suc (suc (suc zero))))))) h = refl
power_at (suc (suc (suc (suc (suc (suc (suc (suc zero)))))))) h = refl
power_at (suc (suc (suc (suc (suc (suc (suc (suc (suc k))))))))) h = absurd (omega arith)

-- An estimate that is right stays, and one that is one too large is corrected.
corrected_right : (n j : ℕ) → j < 10 → (j ≡ 0) ⊎ (10 ^ j ≤ n) → corrected n j ≡ some (suc j)
unfolding Numbers.pow_10
corrected_right n zero small from = ground arith
corrected_right n (suc j) small (inl e) = absurd (omega (arith, e))
corrected_right n (suc j) small (inr more) = ground (arith, power_at j (omega arith))

corrected_large : (n j : ℕ) → j < 9 → n < 10 ^ suc j → corrected n (suc j) ≡ some (suc j)
corrected_large n j small less = ground (arith, power_at j small)

odd : (n : ℕ) → bit_or n 1 ≡ n + (1 - n % 2)
odd n = omega (arith, bit_or-digit n 1, bit_or-zero (n / 2))

module _ (n j lo hi : ℕ) (low : lo < 32) (above : 2 ^ lo ≤ bit_or n 1) (below : bit_or n 1 < 2 ^ hi)
    (from : (j ≡ 0) ⊎ (10 ^ j ≤ n)) where
  estimate : ℕ
  estimate = (32 - Numbers.clz (bit_or n 1)) * 1233 / 2 ^ 12

  estimate_range : hi ≤ 32 → (suc lo * 1233 / 4096 ≤ estimate) × (estimate ≤ hi * 1233 / 4096)
  unfolding Numbers.clz estimate
  estimate_range top =
      let least = bit_length_above lo 32 (bit_or n 1) low above in
      let most = bit_length_below hi 32 (bit_or n 1) below in
      (omega (arith, least, most, top), omega (arith, least, most, top))

  u32_len_at :
      hi ≤ 32
      → j < 9
      → n < 10 ^ suc j
      → suc lo * 1233 / 4096 ≡ j
      → hi * 1233 / 4096 ≤ suc j
      → Numbers.u32_len n ≡ some (suc j)
  unfolding Numbers.u32_len estimate
  u32_len_at top small to first last =
      let (least, most) = estimate_range top in
      elim (lt_or_ge j estimate) [
        | inl more ↦
            let e : estimate ≡ suc j = omega (arith, more, most, last) in
            ap (corrected n) e ∙ corrected_large n j small to
        | inr less ↦
            let e : estimate ≡ j = omega (arith, less, least, first) in
            ap (corrected n) e ∙ corrected_right n j (omega (arith, small)) from
      ]

  u32_len_top :
      hi ≤ 32
      → suc lo * 1233 / 4096 ≡ j
      → hi * 1233 / 4096 ≡ j
      → j < 10
      → Numbers.u32_len n ≡ some (suc j)
  unfolding Numbers.u32_len estimate
  u32_len_top top first last small =
      let (least, most) = estimate_range top in
      let e : estimate ≡ j = omega (arith, least, most, first, last) in
      ap (corrected n) e ∙ corrected_right n j small from

-- The result is the number of decimal digits.
pub record IsLength (n : ℕ) : Type 0 where
  pub j : ℕ
  pub result : Numbers.u32_len n ≡ some (suc j)
  pub few : j < 10
  pub less : n < 10 ^ suc j
  pub least : (j ≡ 0) ⊎ (10 ^ j ≤ n)

middle :
    (n j lo hi : ℕ)
    → 10 ^ j ≤ n
    → n < 10 ^ suc j
    → lo < 32
    → hi ≤ 32
    → 2 ^ lo ≤ bit_or n 1
    → bit_or n 1 < 2 ^ hi
    → j < 9
    → suc lo * 1233 / 4096 ≡ j
    → hi * 1233 / 4096 ≤ suc j
    → IsLength n
middle n j lo hi from to low top above below small first last = record {
  j = j;
  result = u32_len_at n j lo hi low above below (inr from) top small to first last;
  few = omega (arith, small);
  less = to;
  least = inr from;
}

pub u32_len-IsLength : (n : ℕ) → n < 2 ^ 32 → IsLength n
u32_len-IsLength n h = elim (lt_or_ge n 10) [
  | inl less ↦ record {
    j = 0;
    result =
        u32_len_at n 0 0 4 (omega arith) (omega (arith, odd n)) (omega (arith, odd n, less))
          (inl refl) (omega arith) (omega arith) (omega (arith, less)) (omega arith) (omega arith);
    few = omega arith;
    less = omega (arith, less);
    least = inl refl;
  }
  | inr ge1 ↦ elim (lt_or_ge n 100) [
    | inl less ↦
        middle n 1 3 7 (omega (arith, ge1)) (omega (arith, less)) (omega arith) (omega arith)
          (omega (arith, odd n, ge1)) (omega (arith, odd n, less)) (omega arith) (omega arith)
          (omega arith)
    | inr ge2 ↦ elim (lt_or_ge n 1000) [
      | inl less ↦
          middle n 2 6 10 (omega (arith, ge2)) (omega (arith, less)) (omega arith) (omega arith)
            (omega (arith, odd n, ge2)) (omega (arith, odd n, less)) (omega arith) (omega arith)
            (omega arith)
      | inr ge3 ↦ elim (lt_or_ge n 10000) [
        | inl less ↦
            middle n 3 9 14 (omega (arith, ge3)) (omega (arith, less)) (omega arith) (omega arith)
              (omega (arith, odd n, ge3)) (omega (arith, odd n, less)) (omega arith) (omega arith)
              (omega arith)
        | inr ge4 ↦ elim (lt_or_ge n 100000) [
          | inl less ↦
              middle n 4 13 17 (omega (arith, ge4)) (omega (arith, less)) (omega arith)
                (omega arith) (omega (arith, odd n, ge4)) (omega (arith, odd n, less)) (omega arith)
                (omega arith) (omega arith)
          | inr ge5 ↦ elim (lt_or_ge n 1000000) [
            | inl less ↦
                middle n 5 16 20 (omega (arith, ge5)) (omega (arith, less)) (omega arith)
                  (omega arith) (omega (arith, odd n, ge5)) (omega (arith, odd n, less))
                  (omega arith) (omega arith) (omega arith)
            | inr ge6 ↦ elim (lt_or_ge n 10000000) [
              | inl less ↦
                  middle n 6 19 24 (omega (arith, ge6)) (omega (arith, less)) (omega arith)
                    (omega arith) (omega (arith, odd n, ge6)) (omega (arith, odd n, less))
                    (omega arith) (omega arith) (omega arith)
              | inr ge7 ↦ elim (lt_or_ge n 100000000) [
                | inl less ↦
                    middle n 7 23 27 (omega (arith, ge7)) (omega (arith, less)) (omega arith)
                      (omega arith) (omega (arith, odd n, ge7)) (omega (arith, odd n, less))
                      (omega arith) (omega arith) (omega arith)
                | inr ge8 ↦ elim (lt_or_ge n 1000000000) [
                  | inl less ↦
                      middle n 8 26 30 (omega (arith, ge8)) (omega (arith, less)) (omega arith)
                        (omega arith) (omega (arith, odd n, ge8)) (omega (arith, odd n, less))
                        (omega arith) (omega arith) (omega arith)
                  | inr ge9 ↦ record {
                    j = 9;
                    result =
                        u32_len_top n 9 29 32 (omega arith) (omega (arith, odd n, ge9))
                          (omega (arith, odd n, h)) (inr (omega (arith, ge9))) (omega arith)
                          (omega arith) (omega arith) (omega arith);
                    few = omega arith;
                    less = omega (arith, h);
                    least = inr (omega (arith, ge9));
                  }
                ]
              ]
            ]
          ]
        ]
      ]
    ]
  ]
]

-- For a 32-bit integer `http_u32_len` returns the number of its decimal digits.
pub u32_len_lem : (n : ℕ) → n < 2 ^ 32 → Numbers.u32_len n ≡ some (length (decimal 10 n))
u32_len_lem n h =
    let l = u32_len-IsLength n h in
    l.result ∙ ap some (sym (length-decimal l.j 10 n l.few l.less l.least))
