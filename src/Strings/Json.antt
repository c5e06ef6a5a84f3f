-- ===== src/Strings/Json.antt =====
-- `string_utf8_encode` and `string_utf8_decode` of src/reactor/string.c: the contents of a JSON
-- string literal. The decoder reads a NUL-terminated text, given with its NUL.
pub mod Encoded
pub mod RoundTrip
pub mod Rounds
pub mod Total
use libreactorng.Prelude.{
  ℕ, zero, suc, Bool, true, false, Option, none, some, List, [], ◌∷◌, ◌++◌, ◌==◌, ltb, leb,
  if◌then◌else◌, ◌>>=◌, length, get_elem?, drop,
}
use libreactorng.Strings.Utf8.{get, put, put_encoded, put_encoded_basic, get_encoded}

unfoldable pub regular : ℕ → Bool
regular c =
    if c == b'"'
    then false
    else if c == b'\\'
    then false
    else if ltb c 0x20
    then false
    else if leb 0x80 c
    then false
    else true

-- `while (p < p_end && string_utf8_regular(*p)) p++`: the bytes passed over, and what is left.
unfoldable pub run : List ℕ → List ℕ × List ℕ
run [] = ([], [])
run (c ∷ p) = let rest = run p in if regular c then (c ∷ rest.0, rest.1) else ([], c ∷ p)

-- The escape of a byte below 0x80 that is not regular.
unfoldable pub escaped : List ℕ → ℕ → List ℕ
escaped buffer c =
    if c == b'"'
    then buffer ++ (b'\\' ∷ b'"' ∷ [])
    else if c == b'\\'
    then buffer ++ (b'\\' ∷ b'\\' ∷ [])
    else if c == 12
    then buffer ++ (b'\\' ∷ b'f' ∷ [])
    else if c == 10
    then buffer ++ (b'\\' ∷ b'n' ∷ [])
    else if c == 13
    then buffer ++ (b'\\' ∷ b'r' ∷ [])
    else if c == 9
    then buffer ++ (b'\\' ∷ b't' ∷ [])
    else put_encoded_basic buffer c

-- One round of the encoder at a byte: the buffer and what is left.
unfoldable pub encode_round : Bool → List ℕ → ℕ → List ℕ → Option (List ℕ × List ℕ)
encode_round ascii buffer c p =
    if regular c
    then some (buffer ++ (c ∷ (run p).0), (run p).1)
    else if leb 0x80 c
    then (do
      (code, q) ← get (suc (length p)) (c ∷ p)
      some (if ascii then put_encoded buffer code else put buffer code, q))
    else some (escaped buffer c, p)

-- `while (1)`, on fuel; the bytes end at `p_end`.
unfoldable pub encode : (fuel : ℕ) → Bool → List ℕ → List ℕ → Option (List ℕ)
encode zero ascii buffer p = none
encode (suc fuel) ascii buffer [] = some buffer
encode (suc fuel) ascii buffer (c ∷ p) =
    encode_round ascii buffer c p >>= λ r. encode fuel ascii r.0 r.1

-- `while (string_utf8_regular(*p)) p++`, which has no end but the text's: a fault behind it.
unfoldable pub run_text : List ℕ → Option (List ℕ × List ℕ)
run_text [] = none
run_text (c ∷ p) =
    let rest = run_text p in
    if regular c then (rest >>= λ r. some (c ∷ r.0, r.1)) else some ([], c ∷ p)

-- The characters that stand for themselves or a control character behind a backslash.
unfoldable pub unescaped : ℕ → Option ℕ
unescaped c =
    if c == b'"'
    then some b'"'
    else if c == b'\\'
    then some b'\\'
    else if c == b'/'
    then some b'/'
    else if c == b'b'
    then some 8
    else if c == b'f'
    then some 12
    else if c == b'n'
    then some 10
    else if c == b'r'
    then some 13
    else if c == b't'
    then some 9
    else none

-- One round of the decoder: the buffer and the new `p`.
unfoldable pub decode_round : List ℕ → List ℕ → Option (List ℕ × List ℕ)
decode_round buffer [] = none
decode_round buffer (c ∷ p) =
    if regular c
    then (do r ← run_text p; some (buffer ++ (c ∷ r.0), r.1))
    else if leb 0x80 c
    then (do r ← get 4 (c ∷ p); some (put buffer r.0, r.1))
    else if c == b'\\'
    then (do
      e ← get_elem? p 0
      if e == b'u'
          then (do r ← get_encoded (c ∷ p); some (put buffer r.0, r.1))
          else elim (unescaped e) [
            | some plain ↦ some (buffer ++ (plain ∷ []), drop 1 p)
            | none ↦ some (buffer, c ∷ p)
          ])
    else some (buffer, c ∷ p)

-- `while (1)`, on fuel, until a round leaves `p` where it was.
unfoldable pub decode_loop : (fuel : ℕ) → List ℕ → List ℕ → Option (List ℕ × List ℕ)
decode_loop zero buffer p = none
decode_loop (suc fuel) buffer p = decode_round buffer p >>= λ r.
    let rest = decode_loop fuel r.0 r.1 in if length r.1 == length p then some (r.0, r.1) else rest

-- The string and where its text ends. Its terminating NUL is not part of it.
unfoldable pub decode : (fuel : ℕ) → List ℕ → Option (List ℕ × List ℕ)
decode fuel from = decode_loop fuel [] from
