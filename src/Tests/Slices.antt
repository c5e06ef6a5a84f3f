-- ===== src/Tests/Slices.antt =====
-- data.c at concrete slices.
use libreactorng.Prelude.{
  ◌≡◌, refl, ◌↔◌, Bool, true, false, some, [], ◌∷◌, arith, map, drop, get_elem?,
}
use libreactorng.Prelude.Memory.{bytes}
use libreactorng.Data
use libreactorng.Data.{Data}
use libreactorng.Data.Laws.{
  IsValid, contents, equal_lem, equal_case_lem, copyz_lem, contents-offset,
}
use libreactorng.Tests.{plain}

abbrev lower : Data
lower = record { iov_base = some (b'a' ∷ b'b' ∷ b'c' ∷ []); iov_len = 2 }

abbrev mixed : Data
mixed = record { iov_base = some (b'A' ∷ b'b' ∷ []); iov_len = 2 }

lower-IsValid : IsValid lower
lower-IsValid = omega arith

mixed-IsValid : IsValid mixed
mixed-IsValid = omega arith

equal_runs : (Data.equal lower mixed ≡ some false) × (Data.equal_case lower mixed ≡ some true)
unfolding Data.equal Data.equal_case
equal_runs = (refl, refl)

equal_lem_example :
    (b : Bool) × (Data.equal lower mixed ≡ some b)
    × ((b ≡ true) ↔ (contents lower ≡ contents mixed))
equal_lem_example = equal_lem lower mixed lower-IsValid mixed-IsValid

equal_case_lem_example :
    (b : Bool) × (Data.equal_case lower mixed ≡ some b)
    × ((b ≡ true) ↔ (map Data.toupper (contents lower) ≡ map Data.toupper (contents mixed)))
equal_case_lem_example = equal_case_lem lower mixed lower-IsValid mixed-IsValid

copyz_lem_example :
    (to : Data) × (Data.copyz plain lower ≡ some to)
    × IsValid to
    × (contents to ≡ contents lower)
    × (get_elem? (bytes to.iov_base) to.iov_len ≡ some 0)
copyz_lem_example = copyz_lem plain lower lower-IsValid (omega arith)

contents-offset_example :
    IsValid (Data.offset lower 1) × (contents (Data.offset lower 1) ≡ drop 1 (contents lower))
contents-offset_example = contents-offset lower 1 lower-IsValid (omega arith)
