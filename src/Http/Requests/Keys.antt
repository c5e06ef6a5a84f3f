-- ===== src/Http/Requests/Keys.antt =====
-- The literals with which src/reactor/http.c compares.
use libreactorng.Prelude.{ℕ, List, [], ◌∷◌, ◌≡◌, refl, Option, some, arith}
use libreactorng.Data
use libreactorng.Data.{Data}
use libreactorng.Data.Laws as DataLaws
use libreactorng.Strings
use libreactorng.Http.Requests

abbrev pub encoding_text : List ℕ
encoding_text =
    b'T' ∷ b'r' ∷ b'a' ∷ b'n' ∷ b's' ∷ b'f' ∷ b'e' ∷ b'r' ∷ b'-' ∷ b'E' ∷ b'n' ∷ b'c' ∷ b'o' ∷ b'd'
    ∷ b'i' ∷ b'n' ∷ b'g' ∷ []

abbrev pub length_text : List ℕ
length_text =
    b'C' ∷ b'o' ∷ b'n' ∷ b't' ∷ b'e' ∷ b'n' ∷ b't' ∷ b'-' ∷ b'L' ∷ b'e' ∷ b'n' ∷ b'g' ∷ b't' ∷ b'h'
    ∷ []

abbrev pub chunked_text : List ℕ
chunked_text = b'C' ∷ b'h' ∷ b'u' ∷ b'n' ∷ b'k' ∷ b'e' ∷ b'd' ∷ []

abbrev pub get_text : List ℕ
get_text = b'G' ∷ b'E' ∷ b'T' ∷ []

-- A literal is a valid slice of its text.
abbrev pub IsKey : Option Data → List ℕ → Type 0
IsKey o text = (k : Data) × (o ≡ some k) × DataLaws.IsValid k × (DataLaws.contents k ≡ text)

pub encoding_name-IsKey : IsKey Requests.encoding_name encoding_text
unfolding Strings.string Data.define
encoding_name-IsKey = (_, refl, record { inside = omega arith; fits = omega arith }, refl)

pub length_name-IsKey : IsKey Requests.length_name length_text
unfolding Strings.string Data.define
length_name-IsKey = (_, refl, record { inside = omega arith; fits = omega arith }, refl)

pub chunked_name-IsKey : IsKey Requests.chunked_name chunked_text
unfolding Data.string Data.define Data.strlen
chunked_name-IsKey = (_, refl, record { inside = omega arith; fits = omega arith }, refl)

pub get_method-IsKey : IsKey Requests.get_method get_text
unfolding Strings.string Data.define
get_method-IsKey = (_, refl, record { inside = omega arith; fits = omega arith }, refl)
