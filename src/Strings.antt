-- ===== src/Strings.antt =====
-- src/reactor/string.c and string.h. A `string_t` is a `data_t`; the functions that only pass it on
-- to data.c stand here, UTF-8 and the JSON escapes in the modules below.
pub mod Json
pub mod Utf8
use libreactorng.Prelude.{ℕ, Bool, Option, some, List, [], ◌∷◌}
use libreactorng.Prelude.Memory.{Pointer, Allocator}
use libreactorng.Data
use libreactorng.Data.{Data}

-- The literal is a NUL-terminated object.
unfoldable pub string : List ℕ → Option Data
unfolding Data.string
string text = Data.string text

unfoldable pub string_data : Data → Data
string_data d = d

-- "" of size 0.
unfoldable pub null : Data
unfolding Data.define
null = Data.define (some (0 ∷ [])) 0

unfoldable pub copy : Allocator → Data → Option Data
unfolding Data.copyz
copy heap s = Data.copyz heap s

unfoldable pub size : Data → ℕ
unfolding Data.size
size s = Data.size s

unfoldable pub empty : Data → Bool
unfolding Data.empty
empty s = Data.empty s

unfoldable pub base : Data → Pointer
base s = s.iov_base

unfoldable pub equal : Data → Data → Option Bool
unfolding Data.equal
equal a b = Data.equal a b

unfoldable pub equal_case : Data → Data → Option Bool
unfolding Data.equal_case
equal_case a b = Data.equal_case a b
