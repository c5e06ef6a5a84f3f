-- ===== src/Vector/Ends.antt =====
-- The removal of objects from a vector of src/reactor/vector.c, and its operations at the end.
use native.Mathlib.Nat.{mul-le-mul_right}
use libreactorng.Prelude.{
  ℕ, suc, ◌+◌, ◌*◌, ◌^◌, ◌≤◌, ◌<◌, ◌≡◌, ◌∙◌, ap, ap₂, sym, some, List, [], ◌∷◌, ◌++◌, length, take,
  drop, arith, ◌>>=◌, append-nil,
}
use libreactorng.Prelude.Words.{mul64}
use libreactorng.Prelude.Memory.{Pointer, Allocator}
use libreactorng.Data
use libreactorng.Data.{Data}
use libreactorng.Buffer
use libreactorng.Buffer.Erase
use libreactorng.Buffer.Insert
use libreactorng.Vector
use libreactorng.Vector.{Vector}
use libreactorng.Vector.Flat.{
  flatten, IsSized, flatten-append, take-flatten, drop-flatten, IsSized-cons, IsSized-append,
  IsSized-take, IsSized-drop,
}
use libreactorng.Vector.Sequence.{Holds, Points, size_lem, suc_mul, Points-IsValid, length-Points}

removed_flat :
    (n p : ℕ) (os : List (List ℕ))
    → IsSized n os
    → take (p * n) (flatten os) ++ drop (suc p * n) (flatten os)
      ≡ flatten (take p os ++ drop (suc p) os)
removed_flat n p os h =
    ap₂ (λ a b. a ++ b) (take-flatten n p os h) (drop-flatten n (suc p) os h)
    ∙ sym (flatten-append (take p os) (drop (suc p) os))

module _ (heap : Allocator) where
  -- For a vector of objects and a position in it: `vector_erase` returns a vector without the object
  -- at the position, and hands the pointer to that object to `release`.
  pub erase-Holds :
      (v : Vector) (os : List (List ℕ)) (p : ℕ)
      → Holds v os
      → p < length os
      → (v' : Vector) × (Vector.erase heap v p ≡ some (v', Vector.at v p ∷ []))
        × Holds v' (take p os ++ drop (suc p) os)
  unfolding Vector.erase
  erase-Holds v os p h inside =
      let n = v.object_size in
      let long = size_lem v os h in
      let next = suc_mul p n in
      let near : suc p * n ≤ length os * n = mul-le-mul_right n inside in
      let at : mul64 p n ≡ p * n = omega (arith, near, next, long, h.valid.inside, h.valid.small) in
      let (b, e, valid, c) =
        Erase.erase_lem heap v.buffer (p * n) n h.valid (omega (arith, near, next, long)) in
      let after : p * n + n ≡ suc p * n = omega (arith, next) in
      (
        Vector.over v b,
        ap
              (λ k. Buffer.erase heap v.buffer k n >>= λ b'.
                some (Vector.over v b', Vector.at v p ∷ []))
              at
            ∙ ap (λ m. m >>= λ b'. some (Vector.over v b', Vector.at v p ∷ [])) e,
        record {
          valid = valid;
          positive = h.positive;
          sized =
              IsSized-append n (take p os) (drop (suc p) os) (IsSized-take n p os h.sized)
                (IsSized-drop n (suc p) os h.sized);
          flat =
              c
              ∙ ap₂ (λ m k. take (p * n) m ++ drop k m) h.flat after
              ∙ removed_flat n p os h.sized;
        },
      )

  -- For a vector of objects whose bytes with the new one fit into 2 ^ 63: `vector_push_back` returns a
  -- vector that holds the object behind the others.
  pub push_back-Holds :
      (v : Vector) (os : List (List ℕ)) (object : Pointer) (o : List ℕ)
      → Holds v os
      → Points object v.object_size o
      → suc (length os) * v.object_size ≤ 2 ^ 63
      → (v' : Vector) × (Vector.push_back heap v object ≡ some v') × Holds v' (os ++ (o ∷ []))
  unfolding Vector.push_back Data.define flatten Buffer.size Buffer.append
  push_back-Holds v os object o h obj fits =
      let n = v.object_size in
      let long = size_lem v os h in
      let all = suc_mul (length os) n in
      let (b, e, valid, c) =
        Insert.append_lem heap v.buffer (Data.define object n) h.valid
          (Points-IsValid object n o obj (omega (arith, all, fits)))
          (omega (arith, long, all, fits)) in
      (
        Vector.over v b,
        ap (λ m. m >>= λ b'. some (Vector.over v b')) e,
        record {
          valid = valid;
          positive = h.positive;
          sized =
              IsSized-append n os (o ∷ []) h.sized (
                IsSized-cons n o [] (length-Points object n o obj)
                  (λ i a got. ground (arith, got)));
          flat =
              c
              ∙ ap₂ (λ m x. m ++ x) h.flat (obj.these ∙ sym (append-nil o))
              ∙ sym (flatten-append os (o ∷ []));
        },
      )
