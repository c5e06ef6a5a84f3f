-- ===== src/Http/Numbers.antt =====
-- `http_u32_len` and `http_u32_sprint` of src/reactor/http.c: the decimal digits of a 32-bit integer,
-- written backwards from the end of their place.
pub mod Digits
pub mod Lengths
pub mod Printed
use libreactorng.Prelude.{
  ℕ, zero, suc, ◌+◌, ◌-◌, ◌*◌, ◌/◌, ◌%◌, ◌^◌, Option, none, some, List, [], ◌∷◌, ◌==◌, ltb, leb,
  if◌then◌else◌, ◌>>=◌, get_elem?, bit_or,
}

-- The number of binary digits, of at most `fuel`.
unfoldable pub bit_length : (fuel : ℕ) → ℕ → ℕ
bit_length zero n = 0
bit_length (suc fuel) n = let rest = bit_length fuel (n / 2) in if n == 0 then 0 else suc rest

-- `__builtin_clz` of a 32-bit integer other than 0: its leading zero bits.
unfoldable pub clz : ℕ → ℕ
clz n = 32 - bit_length 32 n

unfoldable pub pow_10 : List ℕ
pow_10 = 0 ∷ 10 ∷ 100 ∷ 1000 ∷ 10000 ∷ 100000 ∷ 1000000 ∷ 10000000 ∷ 100000000 ∷ 1000000000 ∷ []

-- The comparison counts as 0 or 1.
unfoldable pub u32_len : ℕ → Option ℕ
unfolding clz pow_10
u32_len n =
    let t = (32 - clz (bit_or n 1)) * 1233 / 2 ^ 12 in
    get_elem? pow_10 t >>= λ power.
    some ((t + (2 ^ 32 - (if ltb n power then 1 else 0)) + 1) % 2 ^ 32)

-- "00010203...99"
unfoldable pub digits : List ℕ
digits =
    b'0' ∷ b'0' ∷ b'0' ∷ b'1' ∷ b'0' ∷ b'2' ∷ b'0' ∷ b'3' ∷ b'0' ∷ b'4' ∷ b'0' ∷ b'5' ∷ b'0' ∷ b'6'
    ∷ b'0' ∷ b'7' ∷ b'0' ∷ b'8' ∷ b'0' ∷ b'9' ∷ b'1' ∷ b'0' ∷ b'1' ∷ b'1' ∷ b'1' ∷ b'2' ∷ b'1'
    ∷ b'3' ∷ b'1' ∷ b'4' ∷ b'1' ∷ b'5' ∷ b'1' ∷ b'6' ∷ b'1' ∷ b'7' ∷ b'1' ∷ b'8' ∷ b'1' ∷ b'9'
    ∷ b'2' ∷ b'0' ∷ b'2' ∷ b'1' ∷ b'2' ∷ b'2' ∷ b'2' ∷ b'3' ∷ b'2' ∷ b'4' ∷ b'2' ∷ b'5' ∷ b'2'
    ∷ b'6' ∷ b'2' ∷ b'7' ∷ b'2' ∷ b'8' ∷ b'2' ∷ b'9' ∷ b'3' ∷ b'0' ∷ b'3' ∷ b'1' ∷ b'3' ∷ b'2'
    ∷ b'3' ∷ b'3' ∷ b'3' ∷ b'4' ∷ b'3' ∷ b'5' ∷ b'3' ∷ b'6' ∷ b'3' ∷ b'7' ∷ b'3' ∷ b'8' ∷ b'3'
    ∷ b'9' ∷ b'4' ∷ b'0' ∷ b'4' ∷ b'1' ∷ b'4' ∷ b'2' ∷ b'4' ∷ b'3' ∷ b'4' ∷ b'4' ∷ b'4' ∷ b'5'
    ∷ b'4' ∷ b'6' ∷ b'4' ∷ b'7' ∷ b'4' ∷ b'8' ∷ b'4' ∷ b'9' ∷ b'5' ∷ b'0' ∷ b'5' ∷ b'1' ∷ b'5'
    ∷ b'2' ∷ b'5' ∷ b'3' ∷ b'5' ∷ b'4' ∷ b'5' ∷ b'5' ∷ b'5' ∷ b'6' ∷ b'5' ∷ b'7' ∷ b'5' ∷ b'8'
    ∷ b'5' ∷ b'9' ∷ b'6' ∷ b'0' ∷ b'6' ∷ b'1' ∷ b'6' ∷ b'2' ∷ b'6' ∷ b'3' ∷ b'6' ∷ b'4' ∷ b'6'
    ∷ b'5' ∷ b'6' ∷ b'6' ∷ b'6' ∷ b'7' ∷ b'6' ∷ b'8' ∷ b'6' ∷ b'9' ∷ b'7' ∷ b'0' ∷ b'7' ∷ b'1'
    ∷ b'7' ∷ b'2' ∷ b'7' ∷ b'3' ∷ b'7' ∷ b'4' ∷ b'7' ∷ b'5' ∷ b'7' ∷ b'6' ∷ b'7' ∷ b'7' ∷ b'7'
    ∷ b'8' ∷ b'7' ∷ b'9' ∷ b'8' ∷ b'0' ∷ b'8' ∷ b'1' ∷ b'8' ∷ b'2' ∷ b'8' ∷ b'3' ∷ b'8' ∷ b'4'
    ∷ b'8' ∷ b'5' ∷ b'8' ∷ b'6' ∷ b'8' ∷ b'7' ∷ b'8' ∷ b'8' ∷ b'8' ∷ b'9' ∷ b'9' ∷ b'0' ∷ b'9'
    ∷ b'1' ∷ b'9' ∷ b'2' ∷ b'9' ∷ b'3' ∷ b'9' ∷ b'4' ∷ b'9' ∷ b'5' ∷ b'9' ∷ b'6' ∷ b'9' ∷ b'7'
    ∷ b'9' ∷ b'8' ∷ b'9' ∷ b'9' ∷ []

-- A pointer into an array of characters: those in front of it, the nearest first, and those from it
-- on. `*--string = c`.
unfoldable pub put_back : ℕ → List ℕ × List ℕ → Option (List ℕ × List ℕ)
put_back c ([], back) = none
put_back c (x ∷ front, back) = some (front, c ∷ back)

-- The two digits at `i`.
unfoldable pub put_pair : ℕ → List ℕ × List ℕ → Option (List ℕ × List ℕ)
unfolding digits put_back
put_pair i string = do
  low ← get_elem? digits (i + 1)
  s ← put_back low string
  high ← get_elem? digits i
  put_back high s

-- `while (n >= 100)`, on fuel, and the statements behind it.
unfoldable pub u32_sprint : (fuel : ℕ) → ℕ → List ℕ × List ℕ → Option (List ℕ × List ℕ)
unfolding put_back put_pair
u32_sprint zero n string = none
u32_sprint (suc fuel) n string =
    let rest = put_pair (n % 100 * 2) string >>= λ s. u32_sprint fuel (n / 100) s in
    if leb 100 n
    then rest
    else if ltb n 10
    then put_back (n + b'0') string
    else put_pair (n * 2) string
