-- ===== src/Tests/Texts.antt =====
-- string.c at concrete texts.
use libreactorng.Prelude.{
  ℕ, ◌≡◌, refl, true, false, none, some, List, [], ◌∷◌, ◌++◌, arith, inl, inr,
}
use libreactorng.Strings.Utf8
use libreactorng.Strings.Utf8.Codes.{utf8, get-put}
use libreactorng.Strings.Utf8.Escapes.{get_encoded-put_encoded, escape}
use libreactorng.Strings.Json
use libreactorng.Strings.Json.Encoded.{utf8s, encoded, encoded_code, AllScalar}
use libreactorng.Strings.Json.RoundTrip.{decode-encode, decode-encode_ascii, decode_overrun}
use libreactorng.Strings.Json.Total.{encode_total, IsPlain}

-- A quote, a letter with an accent, and a line feed.
abbrev text : List ℕ
text = b'"' ∷ 0xe9 ∷ 10 ∷ []

text-AllScalar : AllScalar text
text-AllScalar = (
  (omega arith, inl (omega arith)),
  ((omega arith, inl (omega arith)), ((omega arith, inl (omega arith)), tt)),
)

encode_runs :
    Json.encode 9 false [] (b'a' ∷ b'"' ∷ 0xc3 ∷ 0xa9 ∷ [])
    ≡ some (b'a' ∷ b'\\' ∷ b'"' ∷ 0xc3 ∷ 0xa9 ∷ [])
unfolding Json.encode Json.encode_round Json.run Json.regular Json.escaped Utf8.get Utf8.get_loop
    Utf8.decode_code Utf8.put
encode_runs = refl

decode_runs :
    Json.decode 9 (b'a' ∷ b'\\' ∷ b'u' ∷ b'0' ∷ b'0' ∷ b'e' ∷ b'9' ∷ b'"' ∷ 0 ∷ [])
    ≡ some (b'a' ∷ 0xc3 ∷ 0xa9 ∷ [], b'"' ∷ 0 ∷ [])
unfolding Json.decode Json.decode_loop Json.decode_round Json.run_text Json.regular Utf8.get_encoded
    Utf8.get_encoded_basic Utf8.isxdigit Utf8.xdigit Utf8.put
decode_runs = refl

decode-encode_example :
    (e : List ℕ) × (Json.encode 5 false [] (utf8s text) ≡ some e)
    × (Json.decode 7 (e ++ (b'"' ∷ 0 ∷ [])) ≡ some (utf8s text, b'"' ∷ 0 ∷ []))
unfolding utf8s utf8 encoded encoded_code Json.regular Json.escaped
decode-encode_example = decode-encode text (0 ∷ []) 5 7 text-AllScalar (omega arith) (omega arith)

decode-encode_ascii_example :
    (e : List ℕ) × (Json.encode 5 true [] (utf8s text) ≡ some e)
    × (Json.decode 11 (e ++ (b'"' ∷ 0 ∷ [])) ≡ some (utf8s text, b'"' ∷ 0 ∷ []))
unfolding utf8s utf8 encoded encoded_code Json.regular Json.escaped escape
decode-encode_ascii_example =
    decode-encode_ascii text (0 ∷ []) 5 11 text-AllScalar (omega arith) (omega arith) (omega arith)

get-put_example : Utf8.get 5 (Utf8.put [] 0x20ac ++ (b'a' ∷ [])) ≡ some (0x20ac, b'a' ∷ [])
unfolding Utf8.put
get-put_example = get-put 0x20ac 5 (b'a' ∷ []) (omega arith, inl (omega arith)) (omega arith)

-- U+20000 comes back as U+10000.
get_encoded-put_encoded_example :
    Utf8.get_encoded (Utf8.put_encoded [] 0x20000 ++ []) ≡ some (0x10000, [])
get_encoded-put_encoded_example =
    get_encoded-put_encoded 0x20000 [] (omega arith, inr (omega arith))

decode_overrun_example :
    (Json.decode_round [] (0xc3 ∷ 0 ∷ []) ≡ some (Utf8.put [] 0xFFFD, []))
    × ((fuel : ℕ) → Json.decode_loop fuel [] (0xc3 ∷ 0 ∷ []) ≡ none)
decode_overrun_example = decode_overrun 0xc3 [] (omega arith) (omega arith)

encode_total_example :
    (out : List ℕ) × (Json.encode 4 true [] (0xff ∷ 0 ∷ b'a' ∷ []) ≡ some out)
    × (true ≡ true → IsPlain [] → IsPlain out)
encode_total_example = encode_total 4 true [] (0xff ∷ 0 ∷ b'a' ∷ []) (omega arith)
