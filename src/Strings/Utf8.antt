-- ===== src/Strings/Utf8.antt =====
-- The UTF-8 part of src/reactor/string.c: the table-driven decoder, reading and writing one code
-- point, and the `\\uXXXX` escapes. A buffer is the list of its bytes: Buffer.Insert shows what
-- `buffer_append` does to them. A text in memory is the list of the bytes from the pointer to the
-- end of its object, a read past which is a fault, `none`.
pub mod Codes
pub mod Escapes
pub mod Steps
use libreactorng.Prelude.{
  ℕ, zero, suc, ◌+◌, ◌-◌, ◌*◌, ◌/◌, ◌%◌, ◌^◌, Bool, true, false, not, Option, none, some, List, [],
  ◌∷◌, ◌++◌, ◌==◌, ltb, leb, if◌then◌else◌, ◌>>=◌, ◌&&◌, ◌||◌, length, get_elem?, get_or, drop,
  bit_and, bit_or,
}

-- The classes of the 256 bytes, then the transitions.
unfoldable pub utf8d : List ℕ
utf8d =
    0 ∷ 0 ∷ 0 ∷ 0 ∷ 0 ∷ 0 ∷ 0 ∷ 0 ∷ 0 ∷ 0 ∷ 0 ∷ 0 ∷ 0 ∷ 0 ∷ 0 ∷ 0 ∷ 0 ∷ 0 ∷ 0 ∷ 0 ∷ 0 ∷ 0 ∷ 0 ∷ 0
    ∷ 0 ∷ 0 ∷ 0 ∷ 0 ∷ 0 ∷ 0 ∷ 0 ∷ 0 ∷ 0 ∷ 0 ∷ 0 ∷ 0 ∷ 0 ∷ 0 ∷ 0 ∷ 0 ∷ 0 ∷ 0 ∷ 0 ∷ 0 ∷ 0 ∷ 0 ∷ 0 ∷ 0
    ∷ 0 ∷ 0 ∷ 0 ∷ 0 ∷ 0 ∷ 0 ∷ 0 ∷ 0 ∷ 0 ∷ 0 ∷ 0 ∷ 0 ∷ 0 ∷ 0 ∷ 0 ∷ 0 ∷ 0 ∷ 0 ∷ 0 ∷ 0 ∷ 0 ∷ 0 ∷ 0 ∷ 0
    ∷ 0 ∷ 0 ∷ 0 ∷ 0 ∷ 0 ∷ 0 ∷ 0 ∷ 0 ∷ 0 ∷ 0 ∷ 0 ∷ 0 ∷ 0 ∷ 0 ∷ 0 ∷ 0 ∷ 0 ∷ 0 ∷ 0 ∷ 0 ∷ 0 ∷ 0 ∷ 0 ∷ 0
    ∷ 0 ∷ 0 ∷ 0 ∷ 0 ∷ 0 ∷ 0 ∷ 0 ∷ 0 ∷ 0 ∷ 0 ∷ 0 ∷ 0 ∷ 0 ∷ 0 ∷ 0 ∷ 0 ∷ 0 ∷ 0 ∷ 0 ∷ 0 ∷ 0 ∷ 0 ∷ 0 ∷ 0
    ∷ 0 ∷ 0 ∷ 0 ∷ 0 ∷ 0 ∷ 0 ∷ 0 ∷ 0 ∷ 1 ∷ 1 ∷ 1 ∷ 1 ∷ 1 ∷ 1 ∷ 1 ∷ 1 ∷ 1 ∷ 1 ∷ 1 ∷ 1 ∷ 1 ∷ 1 ∷ 1 ∷ 1
    ∷ 9 ∷ 9 ∷ 9 ∷ 9 ∷ 9 ∷ 9 ∷ 9 ∷ 9 ∷ 9 ∷ 9 ∷ 9 ∷ 9 ∷ 9 ∷ 9 ∷ 9 ∷ 9 ∷ 7 ∷ 7 ∷ 7 ∷ 7 ∷ 7 ∷ 7 ∷ 7 ∷ 7
    ∷ 7 ∷ 7 ∷ 7 ∷ 7 ∷ 7 ∷ 7 ∷ 7 ∷ 7 ∷ 7 ∷ 7 ∷ 7 ∷ 7 ∷ 7 ∷ 7 ∷ 7 ∷ 7 ∷ 7 ∷ 7 ∷ 7 ∷ 7 ∷ 7 ∷ 7 ∷ 7 ∷ 7
    ∷ 8 ∷ 8 ∷ 2 ∷ 2 ∷ 2 ∷ 2 ∷ 2 ∷ 2 ∷ 2 ∷ 2 ∷ 2 ∷ 2 ∷ 2 ∷ 2 ∷ 2 ∷ 2 ∷ 2 ∷ 2 ∷ 2 ∷ 2 ∷ 2 ∷ 2 ∷ 2 ∷ 2
    ∷ 2 ∷ 2 ∷ 2 ∷ 2 ∷ 2 ∷ 2 ∷ 2 ∷ 2 ∷ 10 ∷ 3 ∷ 3 ∷ 3 ∷ 3 ∷ 3 ∷ 3 ∷ 3 ∷ 3 ∷ 3 ∷ 3 ∷ 3 ∷ 3 ∷ 4 ∷ 3 ∷ 3
    ∷ 11 ∷ 6 ∷ 6 ∷ 6 ∷ 5 ∷ 8 ∷ 8 ∷ 8 ∷ 8 ∷ 8 ∷ 8 ∷ 8 ∷ 8 ∷ 8 ∷ 8 ∷ 8 ∷ 0 ∷ 12 ∷ 24 ∷ 36 ∷ 60 ∷ 96
    ∷ 84 ∷ 12 ∷ 12 ∷ 12 ∷ 48 ∷ 72 ∷ 12 ∷ 12 ∷ 12 ∷ 12 ∷ 12 ∷ 12 ∷ 12 ∷ 12 ∷ 12 ∷ 12 ∷ 12 ∷ 12 ∷ 12
    ∷ 0 ∷ 12 ∷ 12 ∷ 12 ∷ 12 ∷ 12 ∷ 0 ∷ 12 ∷ 0 ∷ 12 ∷ 12 ∷ 12 ∷ 24 ∷ 12 ∷ 12 ∷ 12 ∷ 12 ∷ 12 ∷ 24 ∷ 12
    ∷ 24 ∷ 12 ∷ 12 ∷ 12 ∷ 12 ∷ 12 ∷ 12 ∷ 12 ∷ 12 ∷ 12 ∷ 24 ∷ 12 ∷ 12 ∷ 12 ∷ 12 ∷ 12 ∷ 24 ∷ 12 ∷ 12
    ∷ 12 ∷ 12 ∷ 12 ∷ 12 ∷ 12 ∷ 24 ∷ 12 ∷ 12 ∷ 12 ∷ 12 ∷ 12 ∷ 12 ∷ 12 ∷ 12 ∷ 12 ∷ 36 ∷ 12 ∷ 36 ∷ 12
    ∷ 12 ∷ 12 ∷ 36 ∷ 12 ∷ 12 ∷ 12 ∷ 12 ∷ 12 ∷ 36 ∷ 12 ∷ 36 ∷ 12 ∷ 12 ∷ 12 ∷ 36 ∷ 12 ∷ 12 ∷ 12 ∷ 12
    ∷ 12 ∷ 12 ∷ 12 ∷ 12 ∷ 12 ∷ 12 ∷ []

abbrev pub state_accept : ℕ
state_accept = 0

abbrev pub state_reject : ℕ
state_reject = 12

abbrev pub replacement : ℕ
replacement = 0xFFFD

-- The state and the code after one byte.
unfoldable pub decode_code : (state codep byte : ℕ) → ℕ × ℕ
unfolding utf8d
decode_code state codep byte =
    let type = get_or utf8d byte 0 in
    (
      get_or utf8d (256 + state + type) 0,
      if not (state == state_accept)
          then bit_or (bit_and byte 0x3f) (codep * 2 ^ 6 % 2 ^ 32)
          else bit_and (0xff / 2 ^ type) byte,
    )

-- The loop of `string_utf8_get`: `left` is `to - from`.
unfoldable pub get_loop : (left : ℕ) → List ℕ → (state code : ℕ) → Option (ℕ × List ℕ)
get_loop zero from state code = some (code, from)
get_loop (suc left) [] state code = none
get_loop (suc left) (byte ∷ from) state code =
    let next = decode_code state code byte in
    let rest = get_loop left from next.0 next.1 in
    if next.0 == state_accept
    then some (next.1, from)
    else if next.0 == state_reject || left == 0
    then some (replacement, from)
    else rest

-- The code point at `from`, whose text ends `n` bytes on, and where the next one begins.
unfoldable pub get : (n : ℕ) → List ℕ → Option (ℕ × List ℕ)
get n from = get_loop n from state_accept 0

-- `string_utf8_length`, on fuel.
unfoldable pub length_loop : (fuel : ℕ) → List ℕ → ℕ → Option ℕ
length_loop zero from count = none
length_loop (suc fuel) [] count = some count
length_loop (suc fuel) (byte ∷ from) count =
    get (suc (length from)) (byte ∷ from) >>= λ r. length_loop fuel r.1 (count + 1)

abbrev pub u8 : ℕ → ℕ
u8 n = n % 2 ^ 8

abbrev pub u16 : ℕ → ℕ
u16 n = n % 2 ^ 16

unfoldable pub put : List ℕ → ℕ → List ℕ
put buffer code =
    if ltb code 0x80
    then buffer ++ (u8 code ∷ [])
    else if ltb code 0x800
    then buffer ++ (u8 (bit_or 0xc0 (code / 2 ^ 6)) ∷ u8 (bit_or 0x80 (bit_and code 0x3f)) ∷ [])
    else if ltb code 0x10000
    then buffer
      ++ (u8 (bit_or 0xe0 (code / 2 ^ 12))
          ∷ u8 (bit_or 0x80 (bit_and (code / 2 ^ 6) 0x3f))
          ∷ u8 (bit_or 0x80 (bit_and code 0x3f))
          ∷ [])
    else buffer
      ++ (u8 (bit_or 0xf0 (code / 2 ^ 18))
          ∷ u8 (bit_or 0x80 (bit_and (code / 2 ^ 12) 0x3f))
          ∷ u8 (bit_or 0x80 (bit_and (code / 2 ^ 6) 0x3f))
          ∷ u8 (bit_or 0x80 (bit_and code 0x3f))
          ∷ [])

-- "0123456789abcdef"
unfoldable pub hex_map : List ℕ
hex_map =
    b'0' ∷ b'1' ∷ b'2' ∷ b'3' ∷ b'4' ∷ b'5' ∷ b'6' ∷ b'7' ∷ b'8' ∷ b'9' ∷ b'a' ∷ b'b' ∷ b'c' ∷ b'd'
    ∷ b'e' ∷ b'f' ∷ []

unfoldable pub put_encoded_basic : List ℕ → ℕ → List ℕ
unfolding hex_map
put_encoded_basic buffer code =
    buffer
    ++ (b'\\'
        ∷ b'u'
        ∷ get_or hex_map (code / 2 ^ 12) 0
        ∷ get_or hex_map (bit_and (code / 2 ^ 8) 0x0f) 0
        ∷ get_or hex_map (bit_and (code / 2 ^ 4) 0x0f) 0
        ∷ get_or hex_map (bit_and code 0x0f) 0
        ∷ [])

-- The parameter of `string_utf8_put_encoded_basic` is a `uint16_t`.
unfoldable pub put_encoded : List ℕ → ℕ → List ℕ
put_encoded buffer code =
    if leb 0x10000 code
    then put_encoded_basic
        (put_encoded_basic buffer (u16 (bit_or 0xd800 ((code - 0x10000) / 2 ^ 10))))
        (u16 (bit_or 0xdc00 (bit_and (code - 0x10000) 0x3ff)))
    else put_encoded_basic buffer (u16 code)

unfoldable pub isxdigit : ℕ → Bool
isxdigit c = (leb b'0' c && leb c b'9') || (leb b'a' c && leb c b'f') || (leb b'A' c && leb c b'F')

-- The table `xdigit`, which is read at hexadecimal digits only.
unfoldable pub xdigit : ℕ → ℕ
xdigit c = if leb c b'9' then c - b'0' else if leb b'a' c then c - b'a' + 10 else c - b'A' + 10

-- One operand of `&&`: the byte is read, and the rest is looked at only if it passes.
abbrev pub check : {A : Type 0} → List ℕ → ℕ → (ℕ → Bool) → A → Option A → Option A
check p i test fail next = get_elem? p i >>= λ c. if test c then next else some fail

-- The code unit and where the text goes on, which is `from` itself if there is no escape.
unfoldable pub get_encoded_basic : List ℕ → Option (ℕ × List ℕ)
get_encoded_basic p =
    check p 0 (λ c. c == b'\\') (0, p)
      (check p 1 (λ c. c == b'u') (0, p)
        (check p 2 isxdigit (0, p)
          (check p 3 isxdigit (0, p)
            (check p 4 isxdigit (0, p)
              (check p 5 isxdigit (0, p)
                (some (
                  bit_or
                      (bit_or
                        (bit_or (xdigit (get_or p 2 0) * 2 ^ 12) (xdigit (get_or p 3 0) * 2 ^ 8))
                        (xdigit (get_or p 4 0) * 2 ^ 4))
                      (xdigit (get_or p 5 0)),
                  drop 6 p,
                )))))))

-- `p > p_saved`: the text left got shorter.
abbrev pub advanced : List ℕ → List ℕ → Bool
advanced p_saved p = ltb (length p) (length p_saved)

unfoldable pub get_encoded : List ℕ → Option (ℕ × List ℕ)
get_encoded from = do
  (w1, p) ← get_encoded_basic from
  if advanced from p
      then (if leb 0xdc00 w1 && ltb w1 0xe000
          then some (0, from)
          else if leb 0xd800 w1 && ltb w1 0xdc00
          then (do
            (w2, q) ← get_encoded_basic p
            if leb 0xdc00 w2 && ltb w2 0xe000
                then some
                    (bit_or (bit_or 0x10000 (bit_and w1 0x3ff * 2 ^ 10)) (bit_and w2 0x3ff), q)
                else some (0, from))
          else some (w1, p))
      else some (0, p)
