-- ===== src/Data/Laws.antt =====
-- What the slices of src/reactor/data.c denote: the bytes of a valid slice, and the operations
-- in terms of those bytes.
use Prim.Native.Nat.{Ordering}
use libreactorng.Prelude.{
  ℕ, zero, suc, ◌+◌, ◌-◌, ◌≤◌, ◌<◌, ◌^◌, ◌≡◌, refl, ◌↔◌, Bool, true, false, none, some, List, [],
  ◌∷◌, ◌==◌, length, take, drop, arith, map, get_elem?, ap, length-take, length-drop, Bool-cases,
  inl, inr, take-length, get_elem?_ext, get_elem?-take, ◌∙◌,
}
use libreactorng.Prelude.Words.{sub64, add64}
use libreactorng.Prelude.Int.{ℤ, pos, sub_ℕ}
use libreactorng.Prelude.Memory.{Pointer, bytes, read, compare_bytes, Allocator, write_lem}
use libreactorng.Data
use libreactorng.Data.{Data}

-- The slice lies inside its object, whose size is a `size_t`.
pub record IsValid (d : Data) : Type 0 where
  pub inside : d.iov_len ≤ length (bytes d.iov_base)
  pub fits : d.iov_len < 2 ^ 64

abbrev pub contents : Data → List ℕ
contents d = take d.iov_len (bytes d.iov_base)

pub length-contents : (d : Data) → IsValid d → length (contents d) ≡ d.iov_len
length-contents d v = omega (arith, length-take d.iov_len (bytes d.iov_base))

compare_bytes_lem :
    (xs ys : List ℕ)
    → ((elim (compare_bytes xs ys) [ Ordering.eq ↦ true | _ ↦ false ]) ≡ true) ↔ (xs ≡ ys)
unfolding compare_bytes
compare_bytes_lem [] [] = ground arith
compare_bytes_lem [] (y ∷ ys) = ground arith
compare_bytes_lem (x ∷ xs) [] = ground arith
compare_bytes_lem (x ∷ xs) (y ∷ ys) = ground (arith, compare_bytes_lem xs ys)

pub read-contents : (d : Data) → IsValid d → read (bytes d.iov_base) 0 d.iov_len ≡ some (contents d)
unfolding read
read-contents d v = ground arith

-- `data_equal` of valid slices returns, and says true exactly when the two hold the same bytes.
pub equal_lem :
    (d1 d2 : Data)
    → IsValid d1
    → IsValid d2
    → (b : Bool) × (Data.equal d1 d2 ≡ some b) × ((b ≡ true) ↔ (contents d1 ≡ contents d2))
unfolding Data.equal
equal_lem d1 d2 v1 v2 = elim (Bool-cases (d1.iov_len == d2.iov_len)) [
  | inl same ↦ (
    (elim (compare_bytes (contents d1) (contents d2)) [ Ordering.eq ↦ true | _ ↦ false ]),
    ground (arith, read-contents d1 v1, read-contents d2 v2),
    compare_bytes_lem (contents d1) (contents d2),
  )
  | inr other ↦ (
    false,
    rw other,
    (
      (λ h. ground arith),
      (λ h.
          ground
            (arith, length-contents d1 v1, length-contents d2 v2, ap (λ (l : List ℕ). length l) h)),
    ),
  )
]

is_zero-sub : (a b : ℕ) → (a == b) ≡ false → Data.is_zero (sub_ℕ a b) ≡ false
unfolding Data.is_zero
is_zero-sub a b h = ground arith

memcasecmp_lem :
    (s1 s2 : List ℕ) (n : ℕ)
    → n ≤ length s1
    → n ≤ length s2
    → (z : ℤ) × (Data.memcasecmp s1 s2 n ≡ some z)
      × ((Data.is_zero z ≡ true) ↔ (map Data.toupper (take n s1) ≡ map Data.toupper (take n s2)))
unfolding Data.memcasecmp Data.is_zero
memcasecmp_lem s1 s2 zero h1 h2 = (pos 0, refl, ground arith)
memcasecmp_lem [] s2 (suc n) h1 h2 = absurd (omega arith)
memcasecmp_lem (u1 ∷ s1) [] (suc n) h1 h2 = absurd (omega arith)
memcasecmp_lem (u1 ∷ s1) (u2 ∷ s2) (suc n) h1 h2 =
    elim (Bool-cases (Data.toupper u1 == Data.toupper u2)) [
      | inl same ↦
          let (z, e, iff) = memcasecmp_lem s1 s2 n (omega arith) (omega arith) in
          (z, rw same e, ground (arith, iff))
      | inr other ↦ (
        sub_ℕ (Data.toupper u1) (Data.toupper u2),
        rw other,
        ground (arith, is_zero-sub (Data.toupper u1) (Data.toupper u2)),
      )
    ]

length-map-toupper : (xs : List ℕ) → length (map Data.toupper xs) ≡ length xs
length-map-toupper [] = refl
length-map-toupper (x ∷ xs) = ap suc (length-map-toupper xs)

-- `data_equal_case` of valid slices returns, and says true exactly when the two hold the same
-- bytes once every lower-case ASCII letter is made upper-case.
pub equal_case_lem :
    (d1 d2 : Data)
    → IsValid d1
    → IsValid d2
    → (b : Bool) × (Data.equal_case d1 d2 ≡ some b)
      × ((b ≡ true) ↔ (map Data.toupper (contents d1) ≡ map Data.toupper (contents d2)))
unfolding Data.equal_case
equal_case_lem d1 d2 v1 v2 = elim (Bool-cases (d1.iov_len == d2.iov_len)) [
  | inl same ↦
      let (z, e, iff) =
        memcasecmp_lem (bytes d1.iov_base) (bytes d2.iov_base) d1.iov_len v1.inside
          (ground arith) in
      (Data.is_zero z, rw (same, e), ground (arith, iff))
  | inr other ↦ (
    false,
    rw other,
    (
      (λ h. ground arith),
      (λ h. ground (
        arith,
        length-contents d1 v1,
        length-contents d2 v2,
        length-map-toupper (contents d1),
        length-map-toupper (contents d2),
        ap (λ (l : List ℕ). length l) h,
      )),
    ),
  )
]

bytes-advance : (p : Pointer) (n : ℕ) → bytes (Data.advance p n) ≡ drop n (bytes p)
unfolding Data.advance
bytes-advance none zero = refl
bytes-advance none (suc n) = refl
bytes-advance (some m) n = refl

drop-take : (n k : ℕ) (xs : List ℕ) → take (k - n) (drop n xs) ≡ drop n (take k xs)
drop-take zero k xs = let e : k - 0 ≡ k = omega arith in rw e
drop-take (suc n) zero xs = let e : 0 - suc n ≡ 0 = omega arith in rw e
drop-take (suc n) (suc k) [] = take-length (suc k - suc n) [] (omega arith)
drop-take (suc n) (suc k) (x ∷ xs) =
    let e : suc k - suc n ≡ k - n = omega arith in rw e (drop-take n k xs)

-- `data_offset` by at most the size of a valid slice is valid, and drops that many bytes.
pub contents-offset :
    (d : Data) (n : ℕ)
    → IsValid d
    → n ≤ d.iov_len
    → IsValid (Data.offset d n) × (contents (Data.offset d n) ≡ drop n (contents d))
unfolding Data.offset
contents-offset d n v h =
    let len : sub64 d.iov_len n ≡ d.iov_len - n = ground (arith, v) in
    (
      record {
        inside =
            ground
              (arith, len, bytes-advance d.iov_base n, length-drop n (bytes d.iov_base), v.inside);
        fits = ground (arith, len, v.fits);
      },
      rw (len, bytes-advance) (drop-take n d.iov_len (bytes d.iov_base)),
    )

-- `data_copyz` of a valid slice returns a valid slice of its own with the same bytes, and the
-- byte after them is NUL.
pub copyz_lem :
    (heap : Allocator) (d : Data)
    → IsValid d
    → d.iov_len + 1 < 2 ^ 64
    → (to : Data) × (Data.copyz heap d ≡ some to)
      × IsValid to
      × (contents to ≡ contents d)
      × (get_elem? (bytes to.iov_base) to.iov_len ≡ some 0)
unfolding Data.copyz
copyz_lem heap d v h =
    let room : length (heap.malloc (add64 d.iov_len 1)) ≡ d.iov_len + 1 =
      heap.length-malloc (add64 d.iov_len 1) ∙ omega arith in
    let (m1, e1, len1, at1) =
      write_lem (heap.malloc (add64 d.iov_len 1)) 0 (contents d)
        (omega (arith, room, length-contents d v)) in
    let (m2, e2, len2, at2) = write_lem m1 d.iov_len (0 ∷ []) (omega (arith, room, len1)) in
    (
      Data.define (some m2) d.iov_len,
      rw (read-contents d v, e1, e2),
      record { inside = omega (arith, len1, len2, room); fits = v.fits },
      get_elem?_ext (take d.iov_len m2) (contents d) (λ i. ground (
        arith,
        get_elem?-take d.iov_len m2 i,
        at2 i,
        at1 i,
        length-contents d v,
        get_elem?-take d.iov_len (bytes d.iov_base) i,
      )),
      ground (arith, at2 d.iov_len),
    )
