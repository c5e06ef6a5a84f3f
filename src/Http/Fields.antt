-- ===== src/Http/Fields.antt =====
-- The fields of src/reactor/http.c and http.h.
use libreactorng.Prelude.{
  ℕ, zero, suc, ◌≤◌, ◌≡◌, refl, Option, none, some, List, [], ◌∷◌, ◌>>=◌, if◌then◌else◌, length,
  arith, Bool-cases, inl, inr, map,
}
use libreactorng.Data
use libreactorng.Data.{Data}
use libreactorng.Data.Laws as DataLaws
use libreactorng.Strings

-- http_field_t
pub record Field : Type 0 where
  pub name : Data
  pub value : Data

unfoldable pub define : Data → Data → Field
define name value = record { name = name; value = value }

-- `for (i = 0; i < fields_count; i++)`: `count` fields are left.
unfoldable pub lookup : List Field → (count : ℕ) → Data → Option Data
lookup fields zero name = some Strings.null
lookup [] (suc count) name = none
lookup (f ∷ fields) (suc count) name =
    let rest = lookup fields count name in
    Strings.equal_case f.name name >>= λ same. if same then some f.value else rest

-- The names are valid slices, and `P` holds of the values.
abbrev pub AllFields : (Data → Type 0) → List Field → Type 0
AllFields P [] = Unit {0}
AllFields P (f ∷ fields) = DataLaws.IsValid f.name × P f.value × AllFields P fields

-- The same text once every lower-case ASCII letter is made upper-case.
abbrev pub SameLetters : List ℕ → List ℕ → Type 0
SameLetters xs ys = map Data.toupper xs ≡ map Data.toupper ys

-- The value of the first of `count` fields with that name, and the empty string when none has it.
pub data Finds (name : List ℕ) : List Field → (count : ℕ) → Data → Type 0 where
  missing :
      {fields : List Field} → Finds name fields 0 (record { iov_base = some (0 ∷ []); iov_len = 0 })
  first :
      {f : Field} {fields : List Field} {count : ℕ}
      → SameLetters (DataLaws.contents f.name) name
      → Finds name (f ∷ fields) (suc count) f.value
  later :
      {f : Field} {fields : List Field} {count : ℕ} {v : Data}
      → ¬ SameLetters (DataLaws.contents f.name) name
      → Finds name fields count v
      → Finds name (f ∷ fields) (suc count) v

-- What is looked up is the value of the first field with the name; what holds of the value of every
-- field and of the empty string holds of it.
pub lookup_lem :
    (P : Data → Type 0) (fields : List Field) (count : ℕ) (name : Data)
    → P Strings.null
    → count ≤ length fields
    → DataLaws.IsValid name
    → AllFields P fields
    → (v : Data) × (lookup fields count name ≡ some v)
      × Finds (DataLaws.contents name) fields count v
      × P v
unfolding lookup Strings.equal_case Strings.null Data.null
lookup_lem P fields zero name p enough valid all = (Strings.null, refl, missing, p)
lookup_lem P [] (suc count) name p enough valid all = absurd (omega arith)
lookup_lem P (f ∷ fields) (suc count) name p enough valid (name_valid, value, all) =
    let (b, e, iff) = DataLaws.equal_case_lem f.name name name_valid valid in
    let (v, e', found, q) = lookup_lem P fields count name p (omega arith) valid all in
    elim (Bool-cases b) [
      | inl same ↦ (f.value, ground (arith, e, same), first (iff.0 same), value)
      | inr other ↦
          (v, ground (arith, e, other, e'), later (λ h. ground (arith, iff.1 h, other)) found, q)
    ]
