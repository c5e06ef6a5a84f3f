-- ===== src/Tests/Vectors.antt =====
-- vector.c at a concrete vector of two objects of two bytes.
use libreactorng.Prelude.{ℕ, ◌≡◌, refl, some, List, [], ◌∷◌, ◌++◌, take, drop, arith}
use libreactorng.Prelude.Memory.{Pointer}
use libreactorng.Vector
use libreactorng.Vector.{Vector}
use libreactorng.Vector.Flat.{IsSized, flatten, IsSized-cons}
use libreactorng.Vector.Sequence.{Holds, Points, insert-Holds}
use libreactorng.Vector.Ends.{erase-Holds, push_back-Holds}
use libreactorng.Tests.{plain}

abbrev pair_vector : Vector
pair_vector = record {
  buffer = record {
    region = record { iov_base = some (1 ∷ 2 ∷ 3 ∷ 4 ∷ 9 ∷ []); iov_len = 4 };
    capacity = 5;
  };
  object_size = 2;
}

abbrev two_objects : List (List ℕ)
two_objects = (1 ∷ 2 ∷ []) ∷ (3 ∷ 4 ∷ []) ∷ []

two_objects-IsSized : IsSized 2 two_objects
two_objects-IsSized =
    IsSized-cons 2 (1 ∷ 2 ∷ []) ((3 ∷ 4 ∷ []) ∷ []) refl
      (IsSized-cons 2 (3 ∷ 4 ∷ []) [] refl (λ i a got. ground (arith, got)))

pair_vector-Holds : Holds pair_vector two_objects
unfolding flatten
pair_vector-Holds = record {
  valid = record { owns = refl; inside = omega arith; small = omega arith };
  positive = omega arith;
  sized = two_objects-IsSized;
  flat = refl;
}

abbrev new_object : Pointer
new_object = some (5 ∷ 6 ∷ 7 ∷ [])

new_object-Points : Points new_object 2 (5 ∷ 6 ∷ [])
new_object-Points = record { inside = omega arith; these = refl }

insert-Holds_example :
    (v' : Vector) × (Vector.insert plain pair_vector 1 new_object ≡ some v')
    × Holds v' (take 1 two_objects ++ ((5 ∷ 6 ∷ []) ∷ drop 1 two_objects))
insert-Holds_example =
    insert-Holds plain pair_vector two_objects 1 new_object (5 ∷ 6 ∷ []) pair_vector-Holds
      new_object-Points (omega arith) (omega arith)

erase-Holds_example :
    (v' : Vector) × (Vector.erase plain pair_vector 0 ≡ some (v', Vector.at pair_vector 0 ∷ []))
    × Holds v' (take 0 two_objects ++ drop 1 two_objects)
erase-Holds_example = erase-Holds plain pair_vector two_objects 0 pair_vector-Holds (omega arith)

push_back-Holds_example :
    (v' : Vector) × (Vector.push_back plain pair_vector new_object ≡ some v')
    × Holds v' (two_objects ++ ((5 ∷ 6 ∷ []) ∷ []))
push_back-Holds_example =
    push_back-Holds plain pair_vector two_objects new_object (5 ∷ 6 ∷ []) pair_vector-Holds
      new_object-Points (omega arith)
