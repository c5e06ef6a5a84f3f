-- ===== src/Values.antt =====
-- The values of src/reactor/value.c, without their counts of references, and their JSON text.
pub mod Encode
use libreactorng.Prelude.{
  ℕ, zero, suc, Bool, true, false, Option, none, some, List, [], ◌∷◌, ◌==◌, ◌&&◌, if◌then◌else◌,
}

-- A number is a token for the `long double`; the entries of an object are in the order of its table.
mutual
  pub data Value : Type 0 where
    undefined : Value
    null : Value
    boolean : Bool → Value
    number : ℕ → Value
    string : List ℕ → Value
    array : Elements → Value
    object : Entries → Value

  pub data Elements : Type 0 where
    nil : Elements
    element : Value → Elements → Elements

  pub data Entries : Type 0 where
    empty : Entries
    entry : (key : List ℕ) → Value → Entries → Entries

-- The elements of an array, and none of another value.
unfoldable pub array_length : Elements → ℕ
array_length nil = 0
array_length (element v vs) = suc (array_length vs)

-- An element; behind the last one is a fault.
unfoldable pub array_get : Elements → ℕ → Option Value
array_get nil i = none
array_get (element v vs) zero = some v
array_get (element v vs) (suc i) = array_get vs i

-- `data_equal` of keys.
unfoldable pub same_key : List ℕ → List ℕ → Bool
same_key [] [] = true
same_key [] (y ∷ ys) = false
same_key (x ∷ xs) [] = false
same_key (x ∷ xs) (y ∷ ys) = (x == y) && same_key xs ys

-- The value of a key, or the undefined value.
unfoldable pub object_get : Entries → List ℕ → Value
object_get empty key = undefined
object_get (entry k v es) key = if same_key k key then v else object_get es key

-- The keys in the order of the table.
unfoldable pub table_keys : Entries → List (List ℕ)
table_keys empty = []
table_keys (entry k v es) = k ∷ table_keys es
