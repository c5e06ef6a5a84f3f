-- ===== src/Tests/Values.antt =====
-- encode.c at an object with an array.
use libreactorng.Prelude.{ℕ, ◌≡◌, refl, true, false, some, List, [], ◌∷◌}
use libreactorng.Values.{
  Value, boolean, number, string, array, object, nil, element, empty, entry, same_key, object_get,
  array_get, array_length, table_keys,
}
use libreactorng.Values.Encode
use libreactorng.Values.Encode.Texts.{Prints}
use libreactorng.Values.Encode.Total.{IsDefined, IsSort, buffer_encode_lem}
use libreactorng.Strings.Json

-- {"a": [1, true], "b": "x"}
abbrev pair : Value
pair = object (
    entry (b'a' ∷ []) (array (element (number 1) (element (boolean true) nil)))
      (entry (b'b' ∷ []) (string (b'x' ∷ [])) empty))

abbrev unsorted : List (List ℕ) → List (List ℕ)
unsorted keys = keys

unsorted-IsSort : IsSort unsorted
unsorted-IsSort P keys all = all

abbrev digit_text : ℕ → List ℕ
digit_text n = b'1' ∷ []

pair-IsDefined : IsDefined pair
unfolding IsDefined
pair-IsDefined = ((tt, (tt, tt)), (tt, tt))

-- {"a":[1,true],"b":"x"}
encode_runs :
    Encode.buffer_encode false false digit_text unsorted 40 [] pair
    ≡ some (
      b'{' ∷ b'"' ∷ b'a' ∷ b'"' ∷ b':' ∷ b'[' ∷ b'1' ∷ b',' ∷ b't' ∷ b'r' ∷ b'u' ∷ b'e' ∷ b']'
          ∷ b',' ∷ b'"' ∷ b'b' ∷ b'"' ∷ b':' ∷ b'"' ∷ b'x' ∷ b'"' ∷ b'}' ∷ [],
      true,
    )
unfolding Encode.buffer_encode Encode.encode_string Encode.run Encode.step Encode.start_state
    Encode.step_array Encode.step_object Encode.step_keys Encode.object_keys Encode.close
    Encode.separate Encode.new_line Json.encode Json.encode_round Json.regular Json.run same_key
    object_get array_get array_length table_keys
encode_runs = refl

buffer_encode_lem_example :
    (t : List ℕ) × (fuel : ℕ) × Prints true false digit_text unsorted 0 pair [] t
    × (Encode.buffer_encode true false digit_text unsorted fuel [] pair ≡ some (t, true))
buffer_encode_lem_example =
    buffer_encode_lem true false digit_text unsorted pair [] pair-IsDefined unsorted-IsSort
