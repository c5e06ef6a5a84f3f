-- ===== src/Prelude/Numerals.antt =====
-- `isspace`, `isblank`, and the conversions `strtoul` and `strtoull` of the C locale on texts. A text
-- ends at a character that the conversion does not take; a text without one is a fault.
use Prim.Native.Nat.{ℕ, ◌+◌, ◌-◌, ◌*◌, ◌%◌, ◌^◌, min}
use mathlib.Core.Bool.{Bool, ◌&&◌, ◌||◌}
use mathlib.Core.Option.{Option, none, some}
use mathlib.Core.List.{List, [], ◌∷◌}
use libreactorng.Prelude.Tests.{ltb, leb, ◌==◌, if◌then◌else◌, ◌>>=◌}

unfoldable pub isblank : ℕ → Bool
isblank c = c == b' ' || c == 9

unfoldable pub isspace : ℕ → Bool
isspace c = c == b' ' || (leb 9 c && leb c 13)

unfoldable pub isdigit : ℕ → Bool
isdigit c = leb b'0' c && leb c b'9'

-- The value of a letter or a digit; 36 for other characters.
unfoldable pub digit : ℕ → ℕ
digit c =
    if leb b'0' c && leb c b'9'
    then c - b'0'
    else if leb b'a' c && leb c b'z'
    then c - b'a' + 10
    else if leb b'A' c && leb c b'Z'
    then c - b'A' + 10
    else 36

-- The value of the digits in front.
unfoldable pub digits_value : (base : ℕ) → List ℕ → ℕ → Option ℕ
digits_value base [] n = none
digits_value base (c ∷ s) n =
    let rest = digits_value base s (n * base + digit c) in
    if ltb (digit c) base then rest else some n

unfoldable pub skip_spaces : List ℕ → Option (List ℕ)
skip_spaces [] = none
skip_spaces (c ∷ s) = let rest = skip_spaces s in if isspace c then rest else some (c ∷ s)

-- Behind "0x" or "0X" in front of a hexadecimal digit.
unfoldable pub skip_prefix : (base : ℕ) → List ℕ → List ℕ
skip_prefix base (z ∷ x ∷ d ∷ s) =
    if base == 16 && (z == b'0' && ((x == b'x' || x == b'X') && ltb (digit d) 16))
    then d ∷ s
    else z ∷ x ∷ d ∷ s
skip_prefix base s = s

-- Too large a value is ULONG_MAX; a minus sign negates modulo 2 ^ 64.
unfoldable pub strtoul : (base : ℕ) → List ℕ → Option ℕ
strtoul base text = skip_spaces text >>= λ s. signed s
  where
    unsigned : List ℕ → Option ℕ
    unsigned s = digits_value base (skip_prefix base s) 0 >>= λ n. some (min n (2 ^ 64 - 1))

    signed : List ℕ → Option ℕ
    signed [] = none
    signed (c ∷ s) =
        if c == b'-'
        then (digits_value base (skip_prefix base s) 0 >>= λ n.
            some (if ltb n (2 ^ 64) then (2 ^ 64 - n) % 2 ^ 64 else 2 ^ 64 - 1))
        else if c == b'+'
        then unsigned s
        else unsigned (c ∷ s)
