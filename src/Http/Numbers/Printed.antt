-- ===== src/Http/Numbers/Printed.antt =====
-- `http_u32_sprint` writes the decimal digits.
use libreactorng.Prelude.{
  ℕ, zero, suc, ◌+◌, ◌*◌, ◌/◌, ◌%◌, ◌^◌, ◌≤◌, ◌<◌, ◌≡◌, refl, ◌∙◌, ap, ap₂, sym, Bool, true, false,
  Option, none, some, List, [], ◌∷◌, ◌++◌, ◌==◌, get_elem?, length, length-append, drop, arith,
  lt_or_ge, inl, inr, append_assoc,
}
use libreactorng.Prelude.Ranges.{all_from, all_from_lem}
use libreactorng.Http.Numbers
use libreactorng.Http.Numbers.Digits.{decimal}

is_at : Option ℕ → ℕ → Bool
is_at none d = false
is_at (some c) d = c == d

is_at_lem : (o : Option ℕ) (d : ℕ) → is_at o d ≡ true → o ≡ some d
unfolding is_at
is_at_lem none d h = ground arith
is_at_lem (some c) d h = ground arith

digits_at :
    (m : ℕ)
    → m < 100
    → (get_elem? Numbers.digits (m * 2) ≡ some (b'0' + m / 10))
      × (get_elem? Numbers.digits (m * 2 + 1) ≡ some (b'0' + m % 10))
unfolding Numbers.digits is_at all_from
digits_at m h = (
  is_at_lem _ _ (
      all_from_lem 0 100 (λ k. is_at (get_elem? Numbers.digits (k * 2)) (b'0' + k / 10)) m refl
        (omega arith) h),
  is_at_lem _ _ (
      all_from_lem 0 100 (λ k. is_at (get_elem? Numbers.digits (k * 2 + 1)) (b'0' + k % 10)) m refl
        (omega arith) h),
)

put_pair_lem :
    (m x y : ℕ) (front back : List ℕ)
    → m < 100
    → Numbers.put_pair (m * 2) (x ∷ y ∷ front, back)
      ≡ some (front, (b'0' + m / 10) ∷ (b'0' + m % 10) ∷ back)
unfolding Numbers.put_pair Numbers.put_back
put_pair_lem m x y front back h = let (high, low) = digits_at m h in ground (arith, high, low)

decimal_two :
    (k n : ℕ)
    → 100 ≤ n
    → decimal (suc (suc k)) n
      ≡ decimal k (n / 100) ++ ((b'0' + n % 100 / 10) ∷ (b'0' + n % 100 % 10) ∷ [])
unfolding decimal
decimal_two k n h =
    let hundred : n / 10 / 10 ≡ n / 100 = omega arith in
    let ten : n / 10 % 10 ≡ n % 100 / 10 = omega arith in
    let one : n % 10 ≡ n % 100 % 10 = omega arith in
    let first : decimal (suc (suc k)) n
        ≡ (decimal k (n / 10 / 10) ++ ((b'0' + n / 10 % 10) ∷ [])) ++ ((b'0' + n % 10) ∷ []) =
      ground arith in
    first
    ∙ append_assoc (decimal k (n / 10 / 10)) ((b'0' + n / 10 % 10) ∷ []) ((b'0' + n % 10) ∷ [])
    ∙ ap₂ (λ x y. decimal k x ++ ((b'0' + y) ∷ (b'0' + n % 10) ∷ [])) hundred ten
    ∙ ap (λ y. decimal k (n / 100) ++ ((b'0' + n % 100 / 10) ∷ (b'0' + y) ∷ [])) one

Prints : (fuel k n : ℕ) (front back : List ℕ) → Type 0
Prints fuel k n front back =
    Numbers.u32_sprint fuel n (front, back)
    ≡ some (drop (length (decimal k n)) front, decimal k n ++ back)

one_digit :
    (fuel k n : ℕ) (front back : List ℕ)
    → n < 10
    → length (decimal (suc k) n) ≤ length front
    → Prints (suc fuel) (suc k) n front back
unfolding Prints Numbers.u32_sprint Numbers.put_back decimal
one_digit fuel k n [] back h room = ground arith
one_digit fuel k n (x ∷ front) back h room = ground arith

decimal_pair :
    (k n : ℕ) → 10 ≤ n → n < 100 → decimal (suc (suc k)) n ≡ (b'0' + n / 10) ∷ (b'0' + n % 10) ∷ []
unfolding decimal
decimal_pair k n h h' = ground arith

two_digits :
    (fuel k n : ℕ) (front back : List ℕ)
    → 10 ≤ n
    → n < 100
    → length (decimal (suc (suc k)) n) ≤ length front
    → Prints (suc fuel) (suc (suc k)) n front back
unfolding Prints Numbers.u32_sprint
two_digits fuel k n [] back h h' room =
    absurd (omega (arith, room, ap length (decimal_pair k n h h')))
two_digits fuel k n (x ∷ []) back h h' room =
    absurd (omega (arith, room, ap length (decimal_pair k n h h')))
two_digits fuel k n (x ∷ y ∷ front) back h h' room =
    let pair = put_pair_lem n x y front back h' in ground (arith, pair, decimal_pair k n h h')

first_round :
    (fuel n x y : ℕ) (front back : List ℕ)
    → 100 ≤ n
    → Numbers.u32_sprint (suc fuel) n (x ∷ y ∷ front, back)
      ≡ Numbers.u32_sprint fuel
          (n / 100)
          (front, (b'0' + n % 100 / 10) ∷ (b'0' + n % 100 % 10) ∷ back)
unfolding Numbers.u32_sprint
first_round fuel n x y front back h =
    let two = put_pair_lem (n % 100) x y front back (omega arith) in ground (arith, two)

more_digits :
    (fuel k n : ℕ) (front back : List ℕ)
    → 100 ≤ n
    → length (decimal (suc (suc k)) n) ≤ length front
    → ((front' back' : List ℕ)
        → length (decimal k (n / 100)) ≤ length front'
        → Prints fuel k (n / 100) front' back')
    → Prints (suc fuel) (suc (suc k)) n front back
unfolding Prints
more_digits fuel k n [] back h room rest = absurd (
    omega (
      arith,
      room,
      ap length (decimal_two k n h),
      length-append (decimal k (n / 100)) ((b'0' + n % 100 / 10) ∷ (b'0' + n % 100 % 10) ∷ []),
    ))
more_digits fuel k n (x ∷ []) back h room rest = absurd (
    omega (
      arith,
      room,
      ap length (decimal_two k n h),
      length-append (decimal k (n / 100)) ((b'0' + n % 100 / 10) ∷ (b'0' + n % 100 % 10) ∷ []),
    ))
more_digits fuel k n (x ∷ y ∷ front) back h room rest =
    let pair = (b'0' + n % 100 / 10) ∷ (b'0' + n % 100 % 10) ∷ [] in
    let head = decimal k (n / 100) in
    let longer : length (decimal (suc (suc k)) n) ≡ suc (suc (length head)) =
      ap length (decimal_two k n h) ∙ length-append head pair ∙ omega arith in
    let after = rest front (pair ++ back) (omega (arith, room, longer)) in
    let joined : head ++ (pair ++ back) ≡ decimal (suc (suc k)) n ++ back =
      sym (append_assoc head pair back) ∙ ap (λ d. d ++ back) (sym (decimal_two k n h)) in
    let left : drop (length head) front ≡ drop (length (decimal (suc (suc k)) n)) (x ∷ y ∷ front) =
      ap (λ i. drop i (x ∷ y ∷ front)) (sym longer) in
    first_round fuel n x y front back h ∙ after ∙ ap₂ (λ l d. some (l, d)) left joined

positive : (fuel k n : ℕ) → k ≡ 2 * fuel → n < 100 * 10 ^ k → 100 ≤ n → 0 < fuel
positive zero k n e h large =
    let none : 10 ^ k ≡ 1 = ap (λ j. 10 ^ j) e in absurd (omega (arith, none, h, large))
positive (suc fuel) k n e h large = omega arith

-- With room for the digits in front of the pointer, they are written there.
pub u32_sprint_lem :
    (fuel k n : ℕ) (front back : List ℕ)
    → k ≡ 2 * fuel
    → 0 < fuel
    → n < 10 ^ k
    → length (decimal k n) ≤ length front
    → Numbers.u32_sprint fuel n (front, back)
      ≡ some (drop (length (decimal k n)) front, decimal k n ++ back)
unfolding Prints
u32_sprint_lem zero k n front back e some_fuel h room = absurd (omega arith)
u32_sprint_lem (suc fuel) zero n front back e some_fuel h room = absurd (omega arith)
u32_sprint_lem (suc fuel) (suc zero) n front back e some_fuel h room = absurd (omega arith)
u32_sprint_lem (suc fuel) (suc (suc k)) n front back e some_fuel h room =
    let powers : 10 ^ suc (suc k) ≡ 100 * 10 ^ k = omega arith in
    elim (lt_or_ge n 10) [
      | inl less ↦ one_digit fuel (suc k) n front back less room
      | inr more ↦ elim (lt_or_ge n 100) [
        | inl less ↦ two_digits fuel k n front back more less room
        | inr large ↦ more_digits fuel k n front back large room (λ front' back' room'.
            u32_sprint_lem fuel k (n / 100) front' back' (omega arith)
              (positive fuel k n (omega arith) (omega (arith, powers, h)) large)
              (omega (arith, powers, h)) room')
      ]
    ]
