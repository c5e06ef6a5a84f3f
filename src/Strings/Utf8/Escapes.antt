-- ===== src/Strings/Utf8/Escapes.antt =====
-- The `\uXXXX` escapes: what `string_utf8_put_encoded` writes, `string_utf8_get_encoded` reads.
use libreactorng.Prelude.{
  ℕ, ◌+◌, ◌-◌, ◌*◌, ◌/◌, ◌%◌, ◌^◌, ◌≤◌, ◌<◌, ◌≡◌, refl, ◌∙◌, ◌⊎◌, inl, inr, true, false, some, List,
  [], ◌∷◌, ◌++◌, ◌==◌, ltb, leb, lt→ltb, if◌then◌else◌, length, bit_and, bit_or, get_or, arith, ap,
  ◌&&◌, lt_or_ge, ==_iff, append_assoc, length-append,
}
use libreactorng.Prelude.Bits.{bit_or-disjoint, bit_and-mask, bit_or_fields}
use libreactorng.Prelude.Ranges.{all_from, all_from_lem}
use libreactorng.Strings.Utf8
use libreactorng.Strings.Utf8.Codes.{IsScalar}

-- The digit for a number below 16.
unfoldable pub hex : ℕ → ℕ
hex d = get_or Utf8.hex_map d 0

hex_table :
    (all_from 0 16 (λ d. Utf8.isxdigit (hex d)) ≡ true)
    × (all_from 0 16 (λ d. Utf8.xdigit (hex d) == d) ≡ true)
unfolding all_from hex Utf8.hex_map Utf8.isxdigit Utf8.xdigit
hex_table = (refl, refl)

hex_lem : (d : ℕ) → d < 16 → (Utf8.isxdigit (hex d) ≡ true) × (Utf8.xdigit (hex d) ≡ d)
hex_lem d h = (
  all_from_lem 0 16 (λ d. Utf8.isxdigit (hex d)) d hex_table.0 (omega arith) (omega arith),
  (==_iff _ d).0
      (all_from_lem 0 16 (λ d. Utf8.xdigit (hex d) == d) d hex_table.1 (omega arith) (omega arith)),
)

-- The six bytes of an escape.
unfoldable pub escape : ℕ → List ℕ
escape w =
    b'\\' ∷ b'u' ∷ hex (w / 4096) ∷ hex (w / 256 % 16) ∷ hex (w / 16 % 16) ∷ hex (w % 16) ∷ []

pub put_encoded_basic_lem :
    (buffer : List ℕ) (w : ℕ) → w < 2 ^ 16 → Utf8.put_encoded_basic buffer w ≡ buffer ++ escape w
unfolding Utf8.put_encoded_basic escape hex
put_encoded_basic_lem buffer w h =
    ground (arith, bit_and-mask 4 (w / 256), bit_and-mask 4 (w / 16), bit_and-mask 4 w)

nibbles :
    (w : ℕ)
    → bit_or
        (bit_or (bit_or (w / 4096 * 2 ^ 12) (w / 256 % 16 * 2 ^ 8)) (w / 16 % 16 * 2 ^ 4))
        (w % 16)
      ≡ w
nibbles w =
    let a : bit_or (w / 4096 * 2 ^ 12) (w / 256 % 16 * 2 ^ 8) ≡ w / 256 * 2 ^ 8 =
      omega (arith, bit_or-disjoint 12 (w / 4096) (w / 256 % 16 * 2 ^ 8) (omega arith)) in
    let b : bit_or (w / 256 * 2 ^ 8) (w / 16 % 16 * 2 ^ 4) ≡ w / 16 * 2 ^ 4 =
      omega (arith, bit_or-disjoint 8 (w / 256) (w / 16 % 16 * 2 ^ 4) (omega arith)) in
    rw (a, b) (omega (arith, bit_or-disjoint 4 (w / 16) (w % 16) (omega arith)))

pub get_encoded_basic_lem :
    (w : ℕ) (rest : List ℕ)
    → w < 2 ^ 16
    → Utf8.get_encoded_basic (escape w ++ rest) ≡ some (w, rest)
unfolding Utf8.get_encoded_basic escape
get_encoded_basic_lem w rest h =
    let (a3, b3) = hex_lem (w / 4096) (omega arith) in
    let (a2, b2) = hex_lem (w / 256 % 16) (omega arith) in
    let (a1, b1) = hex_lem (w / 16 % 16) (omega arith) in
    let (a0, b0) = hex_lem (w % 16) (omega arith) in
    rw (a3, a2, a1, a0, b3, b2, b1, b0) (ap (λ x. some (x, rest)) (nibbles w))

-- The code point that comes back. In every second plane above the first supplementary one, the `|`
-- with 0x10000 meets a bit of the shifted surrogate, and 0x10000 is lost.
unfoldable pub recovered : ℕ → ℕ
recovered code = if leb 0x20000 code && (code / 0x10000 % 2 == 0) then code - 0x10000 else code

one_or : all_from 0 16 (λ b. bit_or 1 b == (if b % 2 == 0 then b + 1 else b)) ≡ true
unfolding all_from
one_or = refl

surrogates :
    (x : ℕ)
    → x < 2 ^ 20
    → bit_or (bit_or 0x10000 (x / 1024 * 2 ^ 10)) (x % 1024) ≡ recovered (x + 0x10000)
unfolding recovered
surrogates x h =
    let b : bit_or 1 (x / 65536) ≡ (if x / 65536 % 2 == 0 then x / 65536 + 1 else x / 65536) =
      (==_iff _ _).0 (
        all_from_lem 0 16 (λ b. bit_or 1 b == (if b % 2 == 0 then b + 1 else b)) (x / 65536) one_or
          (omega arith) (omega arith)) in
    let split : x / 1024 * 2 ^ 10 ≡ x / 65536 * 2 ^ 16 + x / 1024 % 64 * 1024 = omega arith in
    let high : bit_or 0x10000 (x / 1024 * 2 ^ 10)
        ≡ (bit_or 1 (x / 65536) * 64 + x / 1024 % 64) * 2 ^ 10 =
      ap (bit_or 0x10000) split
      ∙ (bit_or_fields 16 1 (x / 65536) (x / 1024 % 64 * 1024) (omega arith) ∙ omega arith) in
    rw high
      (ground (arith, bit_or-disjoint 10 (bit_or 1 (x / 65536) * 64 + x / 1024 % 64) (x % 1024), b))

pub recovered_small : (code : ℕ) → code < 0x10000 → code ≡ recovered code
unfolding recovered
recovered_small code h = ground arith

abbrev pub units : ℕ → List ℕ
units code =
    if leb 0x10000 code
    then escape (0xd800 + (code - 0x10000) / 1024) ++ escape (0xdc00 + (code - 0x10000) % 1024)
    else escape code

low : (code : ℕ) → code < 0x10000 → code % 2 ^ 16 ≡ code
low code h = omega arith

pub length-escape : (w : ℕ) → length (escape w) ≡ 6
unfolding escape
length-escape w = refl

advanced-escape : (w : ℕ) (rest : List ℕ) → Utf8.advanced (escape w ++ rest) rest ≡ true
advanced-escape w rest =
    lt→ltb (length rest) (length (escape w ++ rest))
      (omega (arith, length-append (escape w) rest, length-escape w))

-- `string_utf8_put_encoded` appends one escape, or the two of a surrogate pair.
pub put_encoded_lem :
    (buffer : List ℕ) (code : ℕ)
    → code < 0x110000
    → Utf8.put_encoded buffer code ≡ buffer ++ units code
unfolding Utf8.put_encoded
put_encoded_lem buffer code h = elim (lt_or_ge code 0x10000) [
  | inl p ↦
      let a : leb 0x10000 code ≡ false = ground arith in
      rw a (
        put_encoded_basic_lem buffer (code % 2 ^ 16) (omega arith)
        ∙ ap (λ w. buffer ++ escape w) (low code p))
  | inr p ↦
      let a : leb 0x10000 code ≡ true = ground arith in
      let x : ℕ = code - 0x10000 in
      let w1 : bit_or 0xd800 (x / 2 ^ 10) % 2 ^ 16 ≡ 0xd800 + x / 1024 =
        omega (arith, bit_or-disjoint 10 54 (x / 1024) (omega arith)) in
      let w2 : bit_or 0xdc00 (bit_and x 0x3ff) % 2 ^ 16 ≡ 0xdc00 + x % 1024 = omega (
        arith,
        bit_or-disjoint 10 55 (x % 1024) (omega arith),
        ap (bit_or 0xdc00) (bit_and-mask 10 x),
      ) in
      rw (a, w1, w2)
        (ap (λ b. Utf8.put_encoded_basic b (0xdc00 + x % 1024))
            (put_encoded_basic_lem buffer (0xd800 + x / 1024) (omega arith))
          ∙ (put_encoded_basic_lem (buffer ++ escape (0xd800 + x / 1024)) (0xdc00 + x % 1024)
                (omega arith)
              ∙ append_assoc buffer (escape (0xd800 + x / 1024)) (escape (0xdc00 + x % 1024))))
]

get_encoded_one :
    (w : ℕ) (rest : List ℕ)
    → w < 2 ^ 16
    → (w < 0xd800) ⊎ (0xe000 ≤ w)
    → Utf8.get_encoded (escape w ++ rest) ≡ some (w, rest)
unfolding Utf8.get_encoded
get_encoded_one w rest h plain =
    let a : (leb 0xdc00 w && ltb w 0xe000) ≡ false = ground arith in
    let b : (leb 0xd800 w && ltb w 0xdc00) ≡ false = ground arith in
    rw (get_encoded_basic_lem w rest h, advanced-escape w rest) (rw (a, b))

get_encoded_two :
    (w1 w2 : ℕ) (rest : List ℕ)
    → (0xd800 ≤ w1) × (w1 < 0xdc00)
    → (0xdc00 ≤ w2) × (w2 < 0xe000)
    → Utf8.get_encoded (escape w1 ++ (escape w2 ++ rest))
      ≡ some (bit_or (bit_or 0x10000 (bit_and w1 0x3ff * 2 ^ 10)) (bit_and w2 0x3ff), rest)
unfolding Utf8.get_encoded
get_encoded_two w1 w2 rest high lows =
    let a : (leb 0xdc00 w1 && ltb w1 0xe000) ≡ false = ground arith in
    let b : (leb 0xd800 w1 && ltb w1 0xdc00) ≡ true = ground arith in
    let c : (leb 0xdc00 w2 && ltb w2 0xe000) ≡ true = ground arith in
    rw
      (
        get_encoded_basic_lem w1 (escape w2 ++ rest) (omega arith),
        advanced-escape w1 (escape w2 ++ rest),
      )
      (rw (a, b) (rw (get_encoded_basic_lem w2 rest (omega arith)) (rw c)))

-- The escapes of a scalar value are read as one code point.
pub get_encoded-units :
    (code : ℕ) (rest : List ℕ)
    → IsScalar code
    → Utf8.get_encoded (units code ++ rest) ≡ some (recovered code, rest)
get_encoded-units code rest scalar = elim (lt_or_ge code 0x10000) [
  | inl p ↦
      let a : leb 0x10000 code ≡ false = ground arith in
      rw a
        (get_encoded_one code rest p scalar.1 ∙ ap (λ c. some (c, rest)) (recovered_small code p))
  | inr p ↦
      let a : leb 0x10000 code ≡ true = ground arith in
      let x : ℕ = code - 0x10000 in
      let w1 : bit_and (0xd800 + x / 1024) 0x3ff ≡ x / 1024 =
        bit_and-mask 10 (0xd800 + x / 1024) ∙ omega arith in
      let w2 : bit_and (0xdc00 + x % 1024) 0x3ff ≡ x % 1024 =
        bit_and-mask 10 (0xdc00 + x % 1024) ∙ omega arith in
      let back : x + 0x10000 ≡ code = omega arith in
      rw a (
        ap Utf8.get_encoded
          (append_assoc (escape (0xd800 + x / 1024)) (escape (0xdc00 + x % 1024)) rest)
        ∙ (get_encoded_two (0xd800 + x / 1024) (0xdc00 + x % 1024) rest (omega arith) (omega arith)
            ∙ ap (λ c. some (c, rest))
                (rw (w1, w2) (surrogates x (omega arith) ∙ ap recovered back))))
]

-- `string_utf8_get_encoded` reads what `string_utf8_put_encoded` wrote for a Unicode scalar value, and
-- stops behind it. It returns the value itself below U+20000 and in every plane of odd number; in the
-- planes 2, 4, …, 16 it returns the value less 0x10000.
pub get_encoded-put_encoded :
    (code : ℕ) (rest : List ℕ)
    → IsScalar code
    → Utf8.get_encoded (Utf8.put_encoded [] code ++ rest)
      ≡ some
          ((if leb 0x20000 code && (code / 0x10000 % 2 == 0) then code - 0x10000 else code), rest)
unfolding recovered
get_encoded-put_encoded code rest scalar =
    ap (λ t. Utf8.get_encoded (t ++ rest)) (put_encoded_lem [] code scalar.0)
    ∙ get_encoded-units code rest scalar
