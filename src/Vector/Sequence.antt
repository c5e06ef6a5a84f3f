-- ===== src/Vector/Sequence.antt =====
-- A vector of src/reactor/vector.c as a sequence of objects, and its operations in terms of it.
use native.Mathlib.Nat.{mul-le-mul_right}
use libreactorng.Prelude.{
  ℕ, suc, ◌+◌, ◌*◌, ◌^◌, ◌≤◌, ◌<◌, ◌≡◌, ◌∙◌, ap, ap₂, sym, some, List, ◌∷◌, ◌++◌, length, take,
  drop, arith, ◌>>=◌, length-take,
}
use libreactorng.Prelude.Words.{mul64}
use libreactorng.Prelude.Memory.{Pointer, Allocator, bytes}
use libreactorng.Data
use libreactorng.Data.{Data}
use libreactorng.Data.Laws as DataLaws
use libreactorng.Buffer
use libreactorng.Buffer.Valid.{IsValid, contents, length-contents}
use libreactorng.Buffer.Insert
use libreactorng.Vector
use libreactorng.Vector.{Vector}
use libreactorng.Vector.Flat.{
  flatten, IsSized, flatten-append, length-flatten, take-flatten, drop-flatten, IsSized-cons,
  IsSized-append, IsSized-take, IsSized-drop,
}

-- The vector holds the objects `os`, in this order.
pub record Holds (v : Vector) (os : List (List ℕ)) : Type 0 where
  pub valid : IsValid v.buffer
  pub positive : 1 ≤ v.object_size
  pub sized : IsSized v.object_size os
  pub flat : contents v.buffer ≡ flatten os

-- An object: the bytes that a pointer points to.
pub record Points (object : Pointer) (n : ℕ) (o : List ℕ) : Type 0 where
  pub inside : n ≤ length (bytes object)
  pub these : take n (bytes object) ≡ o

pub size_lem :
    (v : Vector) (os : List (List ℕ))
    → Holds v os
    → v.buffer.region.iov_len ≡ length os * v.object_size
size_lem v os h =
    sym (length-contents v.buffer h.valid)
    ∙ ap length h.flat
    ∙ length-flatten v.object_size os h.sized

pub suc_mul : (p n : ℕ) → suc p * n ≡ n + p * n
suc_mul p n = omega arith

inserted-IsSized :
    (n p : ℕ) (os : List (List ℕ)) (o : List ℕ)
    → length o ≡ n
    → IsSized n os
    → IsSized n (take p os ++ (o ∷ drop p os))
inserted-IsSized n p os o e h =
    IsSized-append n (take p os) (o ∷ drop p os) (IsSized-take n p os h)
      (IsSized-cons n o (drop p os) e (IsSized-drop n p os h))

inserted_flat :
    (n p : ℕ) (os : List (List ℕ)) (o : List ℕ)
    → IsSized n os
    → take (p * n) (flatten os) ++ (o ++ drop (p * n) (flatten os))
      ≡ flatten (take p os ++ (o ∷ drop p os))
unfolding flatten
inserted_flat n p os o h =
    ap₂ (λ a b. a ++ (o ++ b)) (take-flatten n p os h) (drop-flatten n p os h)
    ∙ sym (flatten-append (take p os) (o ∷ drop p os))

pub Points-IsValid :
    (object : Pointer) (n : ℕ) (o : List ℕ)
    → Points object n o
    → n < 2 ^ 64
    → DataLaws.IsValid (Data.define object n)
unfolding Data.define
Points-IsValid object n o h small = record { inside = h.inside; fits = small }

pub length-Points : (object : Pointer) (n : ℕ) (o : List ℕ) → Points object n o → length o ≡ n
length-Points object n o h =
    ap length (sym h.these) ∙ omega (arith, length-take n (bytes object), h.inside)

module _ (heap : Allocator) where
  -- For a vector of objects whose bytes with the new one fit into 2 ^ 63, and a position in it or at
  -- its end: `vector_insert` returns a vector that holds the object at the position between the others.
  pub insert-Holds :
      (v : Vector) (os : List (List ℕ)) (p : ℕ) (object : Pointer) (o : List ℕ)
      → Holds v os
      → Points object v.object_size o
      → p ≤ length os
      → suc (length os) * v.object_size ≤ 2 ^ 63
      → (v' : Vector) × (Vector.insert heap v p object ≡ some v')
        × Holds v' (take p os ++ (o ∷ drop p os))
  unfolding Vector.insert Data.define
  insert-Holds v os p object o h obj inside fits =
      let n = v.object_size in
      let long = size_lem v os h in
      let all = suc_mul (length os) n in
      let near : p * n ≤ length os * n = mul-le-mul_right n inside in
      let at : mul64 p n ≡ p * n = omega (arith, near, all, fits) in
      let (b, e, valid, c) =
        Insert.insert_lem heap v.buffer (p * n) (Data.define object n) h.valid
          (Points-IsValid object n o obj (omega (arith, all, fits))) (omega (arith, near, long))
          (omega (arith, long, all, fits)) in
      (
        Vector.over v b,
        ap
              (λ k. Buffer.insert heap v.buffer k (Data.define object n) >>= λ b'.
                some (Vector.over v b'))
              at
            ∙ ap (λ m. m >>= λ b'. some (Vector.over v b')) e,
        record {
          valid = valid;
          positive = h.positive;
          sized = inserted-IsSized n p os o (length-Points object n o obj) h.sized;
          flat =
              c
              ∙ (ap₂ (λ m r. take (p * n) m ++ r) h.flat
                    (ap₂ (λ x m. x ++ drop (p * n) m) obj.these h.flat)
                  ∙ inserted_flat n p os o h.sized);
        },
      )
