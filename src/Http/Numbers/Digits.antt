-- ===== src/Http/Numbers/Digits.antt =====
-- The numbers that `http_u32_len` and `http_u32_sprint` write, against the digits by division.
use native.Mathlib.Nat.{one-le-pow}
use libreactorng.Prelude.{
  ◌⊎◌, ℕ, zero, suc, ◌+◌, ◌-◌, ◌*◌, ◌/◌, ◌%◌, ◌^◌, ◌≤◌, ◌<◌, ◌≡◌, refl, List, [], ◌∷◌, ◌++◌, ltb,
  if◌then◌else◌, length, length-append, arith, lt_or_ge, inl, inr,
}
use libreactorng.Http.Numbers

-- The decimal digits, most significant first; `fuel` bounds how many.
unfoldable pub decimal : (fuel : ℕ) → ℕ → List ℕ
decimal zero n = []
decimal (suc fuel) n =
    let rest = decimal fuel (n / 10) in
    if ltb n 10 then (b'0' + n) ∷ [] else rest ++ ((b'0' + n % 10) ∷ [])

-- The number that digits stand for.
unfoldable pub number : List ℕ → ℕ → ℕ
number [] n = n
number (c ∷ cs) n = number cs (n * 10 + (c - b'0'))

number-append : (xs ys : List ℕ) (n : ℕ) → number (xs ++ ys) n ≡ number ys (number xs n)
unfolding number
number-append [] ys n = refl
number-append (x ∷ xs) ys n = number-append xs ys (n * 10 + (x - b'0'))

pow_suc : (k : ℕ) → 10 ^ suc k ≡ 10 * 10 ^ k
pow_suc k = omega arith

-- Reading the digits gives the number back.
pub number-decimal : (fuel n : ℕ) → n < 10 ^ fuel → number (decimal fuel n) 0 ≡ n
unfolding number decimal
number-decimal zero n h = omega arith
number-decimal (suc fuel) n h =
    let small : n / 10 < 10 ^ fuel = omega (arith, pow_suc fuel, h) in
    elim (lt_or_ge n 10) [
      | inl less ↦ ground arith
      | inr more ↦ ground (
        arith,
        number-decimal fuel (n / 10) small,
        number-append (decimal fuel (n / 10)) ((b'0' + n % 10) ∷ []) 0,
      )
    ]

pub length-decimal :
    (k fuel n : ℕ)
    → k < fuel
    → n < 10 ^ suc k
    → (k ≡ 0) ⊎ (10 ^ k ≤ n)
    → length (decimal fuel n) ≡ suc k
unfolding decimal
length-decimal k zero n enough less more = absurd (omega arith)
length-decimal zero (suc fuel) n enough less more = ground arith
length-decimal (suc k) (suc fuel) n enough less (inl e) = absurd (omega (arith, e))
length-decimal (suc k) (suc fuel) n enough less (inr more) =
    let one = one-le-pow k 10 in
    let small : n / 10 < 10 ^ suc k = omega (arith, pow_suc (suc k), less) in
    let large : 10 ^ k ≤ n / 10 = omega (arith, pow_suc k, more) in
    let big : 10 ≤ n = omega (arith, pow_suc k, more, one) in
    ground (
      arith,
      big,
      length-decimal k fuel (n / 10) (omega arith) small (inr large),
      length-append (decimal fuel (n / 10)) ((b'0' + n % 10) ∷ []),
    )

pub bit_length_below : (b fuel x : ℕ) → x < 2 ^ b → Numbers.bit_length fuel x ≤ b
unfolding Numbers.bit_length
bit_length_below b zero x h = omega arith
bit_length_below zero (suc fuel) x h = ground arith
bit_length_below (suc b) (suc fuel) x h =
    let small : x / 2 < 2 ^ b = omega (arith, two_pow b, h) in
    ground (arith, bit_length_below b fuel (x / 2) small)
  where
    two_pow : (k : ℕ) → 2 ^ suc k ≡ 2 * 2 ^ k
    two_pow k = omega arith

pub bit_length_above : (b fuel x : ℕ) → b < fuel → 2 ^ b ≤ x → b < Numbers.bit_length fuel x
unfolding Numbers.bit_length
bit_length_above b zero x enough h = absurd (omega arith)
bit_length_above zero (suc fuel) x enough h = ground arith
bit_length_above (suc b) (suc fuel) x enough h =
    let one = one-le-pow b 2 in
    let twice : 2 ^ suc b ≡ 2 * 2 ^ b = omega arith in
    let large : 2 ^ b ≤ x / 2 = omega (arith, twice, h) in
    let some_bits : 1 ≤ x = omega (arith, twice, h, one) in
    ground (arith, some_bits, bit_length_above b fuel (x / 2) (omega arith) large)

positive : (f n : ℕ) → 10 ≤ n → n / 10 < 10 ^ f → 0 < f
positive zero n h less = absurd (omega (arith, h, less))
positive (suc f) n h less = omega arith

-- Enough fuel gives the same digits.
pub decimal_fuel : (f g n : ℕ) → n < 10 ^ f → n < 10 ^ g → 0 < f → 0 < g → decimal f n ≡ decimal g n
unfolding decimal
decimal_fuel zero g n hf hg pf pg = absurd (omega arith)
decimal_fuel (suc f) zero n hf hg pf pg = absurd (omega arith)
decimal_fuel (suc f) (suc g) n hf hg pf pg = elim (lt_or_ge n 10) [
  | inl less ↦ ground arith
  | inr more ↦
      let small_f : n / 10 < 10 ^ f = omega (arith, pow_suc f, hf) in
      let small_g : n / 10 < 10 ^ g = omega (arith, pow_suc g, hg) in
      let some_f : 0 < f = positive f n more small_f in
      let some_g : 0 < g = positive g n more small_g in
      ground (arith, decimal_fuel f g (n / 10) small_f small_g some_f some_g)
]
