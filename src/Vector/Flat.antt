-- ===== src/Vector/Flat.antt =====
-- The bytes of a sequence of objects of one size.
use mathlib.Core.Option.{some-injective}
use libreactorng.Prelude.{
  ℕ, zero, suc, ◌+◌, ◌*◌, ◌≡◌, refl, ◌∙◌, ap, some, List, [], ◌∷◌, ◌++◌, length, take, drop,
  get_elem?, arith, append_assoc, sym, ◌-◌, length-append, get_elem?_ext, get_elem?-take,
  get_elem?-drop, get_elem?-append,
}

unfoldable pub flatten : List (List ℕ) → List ℕ
flatten [] = []
flatten (o ∷ os) = o ++ flatten os

-- Every object has `n` bytes.
abbrev pub IsSized : ℕ → List (List ℕ) → Type 0
IsSized n os = (i : ℕ) (o : List ℕ) → get_elem? os i ≡ some o → length o ≡ n

IsSized-tail : (n : ℕ) (o : List ℕ) (os : List (List ℕ)) → IsSized n (o ∷ os) → IsSized n os
IsSized-tail n o os h i = h (suc i)

pub IsSized-cons :
    (n : ℕ) (o : List ℕ) (os : List (List ℕ)) → length o ≡ n → IsSized n os → IsSized n (o ∷ os)
IsSized-cons n o os e h zero a got = ap length (some-injective a o (sym got)) ∙ e
IsSized-cons n o os e h (suc i) a got = h i a got

pub IsSized-append :
    (n : ℕ) (xs ys : List (List ℕ)) → IsSized n xs → IsSized n ys → IsSized n (xs ++ ys)
IsSized-append n [] ys hx hy = hy
IsSized-append n (x ∷ xs) ys hx hy =
    IsSized-cons n x (xs ++ ys) (hx 0 x refl) (IsSized-append n xs ys (IsSized-tail n x xs hx) hy)

pub IsSized-take : (n p : ℕ) (os : List (List ℕ)) → IsSized n os → IsSized n (take p os)
IsSized-take n p os h i a got = h i a (ground (arith, got, get_elem?-take p os i))

pub IsSized-drop : (n p : ℕ) (os : List (List ℕ)) → IsSized n os → IsSized n (drop p os)
IsSized-drop n p os h i a got = h (p + i) a (sym (get_elem?-drop p os i) ∙ got)

take-nil : (k : ℕ) → take {A = ℕ} k [] ≡ []
take-nil zero = refl
take-nil (suc k) = refl

drop-nil : (k : ℕ) → drop {A = ℕ} k [] ≡ []
drop-nil zero = refl
drop-nil (suc k) = refl

take_beyond : (xs ys : List ℕ) (k : ℕ) → take (length xs + k) (xs ++ ys) ≡ xs ++ take k ys
take_beyond xs ys k = get_elem?_ext _ _ (λ i. ground (
  arith,
  get_elem?-take (length xs + k) (xs ++ ys) i,
  get_elem?-append xs ys i,
  get_elem?-append xs (take k ys) i,
  get_elem?-take k ys (i - length xs),
))

drop_beyond : (xs ys : List ℕ) (k : ℕ) → drop (length xs + k) (xs ++ ys) ≡ drop k ys
drop_beyond xs ys k = get_elem?_ext _ _ (λ i. ground (
  arith,
  get_elem?-drop (length xs + k) (xs ++ ys) i,
  get_elem?-append xs ys (length xs + k + i),
  get_elem?-drop k ys i,
))

suc_mul : (p n : ℕ) → suc p * n ≡ n + p * n
suc_mul p n = omega arith

pub flatten-append : (xs ys : List (List ℕ)) → flatten (xs ++ ys) ≡ flatten xs ++ flatten ys
unfolding flatten
flatten-append [] ys = refl
flatten-append (x ∷ xs) ys =
    ap (λ r. x ++ r) (flatten-append xs ys) ∙ sym (append_assoc x (flatten xs) (flatten ys))

pub length-flatten :
    (n : ℕ) (os : List (List ℕ)) → IsSized n os → length (flatten os) ≡ length os * n
unfolding flatten
length-flatten n [] h = omega arith
length-flatten n (o ∷ os) h = omega (
  arith,
  length-append o (flatten os),
  h 0 o refl,
  length-flatten n os (IsSized-tail n o os h),
  suc_mul (length os) n,
)

pub take-flatten :
    (n p : ℕ) (os : List (List ℕ)) → IsSized n os → take (p * n) (flatten os) ≡ flatten (take p os)
unfolding flatten
take-flatten n zero os h =
    (let none_left : 0 * n ≡ 0 = omega arith in ap (λ k. take k (flatten os)) none_left)
take-flatten n (suc p) [] h = take-nil (suc p * n)
take-flatten n (suc p) (o ∷ os) h =
    let split : suc p * n ≡ length o + p * n = omega (arith, suc_mul p n, h 0 o refl) in
    ap (λ k. take k (o ++ flatten os)) split
    ∙ take_beyond o (flatten os) (p * n)
    ∙ ap (λ r. o ++ r) (take-flatten n p os (IsSized-tail n o os h))

pub drop-flatten :
    (n p : ℕ) (os : List (List ℕ)) → IsSized n os → drop (p * n) (flatten os) ≡ flatten (drop p os)
unfolding flatten
drop-flatten n zero os h =
    (let none_left : 0 * n ≡ 0 = omega arith in ap (λ k. drop k (flatten os)) none_left)
drop-flatten n (suc p) [] h = drop-nil (suc p * n)
drop-flatten n (suc p) (o ∷ os) h =
    let split : suc p * n ≡ length o + p * n = omega (arith, suc_mul p n, h 0 o refl) in
    ap (λ k. drop k (o ++ flatten os)) split
    ∙ drop_beyond o (flatten os) (p * n)
    ∙ drop-flatten n p os (IsSized-tail n o os h)
