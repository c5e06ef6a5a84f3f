-- ===== src/Strings/Json/RoundTrip.antt =====
-- `string_utf8_decode` reads what `string_utf8_encode` wrote, up to the closing quote; and it reads
-- past the terminating NUL of a text that breaks off inside a sequence.
use libreactorng.Prelude.{
  ℕ, zero, suc, ◌≤◌, ◌<◌, ◌≡◌, refl, ◌∙◌, inl, inr, Bool, true, false, Option, some, none, List, [],
  ◌∷◌, ◌++◌, ◌==◌, leb, length, arith, ap, append_assoc, length-append, Bool-cases, append-nil, sym,
  map, ◌&&◌,
}
use libreactorng.Prelude.Ranges.{all_from, all_from_lem}
use libreactorng.Strings.Utf8
use libreactorng.Strings.Utf8.Codes.{utf8}
use libreactorng.Strings.Utf8.Escapes.{escape, recovered}
use libreactorng.Strings.Json
use libreactorng.Strings.Json.{regular}
use libreactorng.Strings.Json.Encoded.{
  utf8s, AllScalar, encoded_code, encoded, regular-lt, regular_high, utf8_ascii,
  encoded_code-regular, encode_lem,
}
use libreactorng.Strings.Json.Rounds.{returned, returned_small, regular_round, decoded_code}

quote_stops :
    (fuel : ℕ) (buffer rest : List ℕ)
    → Json.decode_loop (suc fuel) buffer (b'"' ∷ rest) ≡ some (buffer, b'"' ∷ rest)
unfolding Json.decode_loop Json.decode_round Json.regular
quote_stops fuel buffer rest = ground arith

some_code : (ascii : Bool) (code : ℕ) → 0 < length (encoded_code ascii code)
unfolding encoded_code utf8 Json.escaped escape Utf8.put_encoded_basic
some_code true code = ground arith
some_code false code = ground arith

-- The decoder, on what the encoder writes for a list of Unicode scalar values and a closing quote,
-- ends at the quote, with the UTF-8 text of the code points that come back.
pub decode_encoded :
    (codes : List ℕ) (fuel : ℕ) (ascii : Bool) (buffer rest : List ℕ)
    → AllScalar codes
    → length (encoded ascii codes) < fuel
    → Json.decode_loop fuel buffer (encoded ascii codes ++ (b'"' ∷ rest))
      ≡ some (buffer ++ utf8s (map (returned ascii) codes), b'"' ∷ rest)
unfolding utf8s encoded
decode_encoded codes zero ascii buffer rest all h = absurd (omega arith)
decode_encoded [] (suc fuel) ascii buffer rest all h =
    quote_stops fuel buffer rest ∙ ap (λ b. some (b, b'"' ∷ rest)) (sym (append-nil buffer))
decode_encoded (code ∷ codes) (suc fuel) ascii buffer rest all h =
    let p = encoded ascii codes ++ (b'"' ∷ rest) in
    let size = length-append (encoded_code ascii code) (encoded ascii codes) in
    let apart = append_assoc (encoded_code ascii code) (encoded ascii codes) (b'"' ∷ rest) in
    let joined =
      append_assoc buffer (utf8 (returned ascii code)) (utf8s (map (returned ascii) codes)) in
    ap (Json.decode_loop (suc fuel) buffer) apart
    ∙ (elim (Bool-cases (regular code)) [
      | inr special ↦
          decoded_code fuel ascii buffer code p all.0 special
          ∙ decode_encoded codes fuel ascii (buffer ++ utf8 (returned ascii code)) rest all.1
              (omega (arith, size, some_code ascii code))
      | inl plain ↦
          let one = encoded_code-regular ascii code plain in
          let small = regular-lt code plain in
          let same =
            sym (utf8_ascii code small) ∙ ap utf8 (returned_small ascii code (omega arith)) in
          ap (λ t. Json.decode_loop (suc fuel) buffer (t ++ p)) one
          ∙ (elim (regular_round fuel buffer code p plain
                (omega (arith, length-append (encoded ascii codes) (b'"' ∷ rest)))) [
                  | inl on ↦
                      on
                      ∙ decode_encoded codes (suc fuel) ascii (buffer ++ (code ∷ [])) rest all.1
                          (omega (arith, size))
                  | inr stop ↦
                      stop
                      ∙ decode_encoded codes fuel ascii (buffer ++ (code ∷ [])) rest all.1
                          (omega (arith, size, some_code ascii code))
                ]
              ∙ ap (λ t. some ((buffer ++ t) ++ utf8s (map (returned ascii) codes), b'"' ∷ rest))
                  same)
    ]
        ∙ ap (λ b. some (b, b'"' ∷ rest)) joined)

-- Every code point is below U+20000.
abbrev pub AllLow : List ℕ → Type 0
AllLow [] = Unit {0}
AllLow (code ∷ codes) = (code < 0x20000) × AllLow codes

returned_low : (codes : List ℕ) → AllLow codes → map (returned true) codes ≡ codes
unfolding recovered
returned_low [] low = refl
returned_low (code ∷ codes) low = ground (arith, returned_low codes low.1)

returned_plain : (codes : List ℕ) → map (returned false) codes ≡ codes
returned_plain [] = refl
returned_plain (code ∷ codes) = ap (λ t. code ∷ t) (returned_plain codes)

-- A text of Unicode scalar values in UTF-8, encoded and read back up to a closing quote, is the same
-- text, the encoder and the decoder each given a round for each byte and one more.
pub decode-encode :
    (codes rest : List ℕ) (n m : ℕ)
    → AllScalar codes
    → length (utf8s codes) < n
    → length (encoded false codes) < m
    → (e : List ℕ) × (Json.encode n false [] (utf8s codes) ≡ some e)
      × (Json.decode m (e ++ (b'"' ∷ rest)) ≡ some (utf8s codes, b'"' ∷ rest))
unfolding Json.decode
decode-encode codes rest n m all hn hm = (
  encoded false codes,
  encode_lem codes n false [] all hn,
  decode_encoded codes m false [] rest all hm
      ∙ ap (λ t. some (utf8s t, b'"' ∷ rest)) (returned_plain codes),
)

-- So it is when only ASCII is written, if every code point is below U+20000.
pub decode-encode_ascii :
    (codes rest : List ℕ) (n m : ℕ)
    → AllScalar codes
    → AllLow codes
    → length (utf8s codes) < n
    → length (encoded true codes) < m
    → (e : List ℕ) × (Json.encode n true [] (utf8s codes) ≡ some e)
      × (Json.decode m (e ++ (b'"' ∷ rest)) ≡ some (utf8s codes, b'"' ∷ rest))
unfolding Json.decode
decode-encode_ascii codes rest n m all low hn hm = (
  encoded true codes,
  encode_lem codes n true [] all hn,
  decode_encoded codes m true [] rest all hm
      ∙ ap (λ t. some (utf8s t, b'"' ∷ rest)) (returned_low codes low),
)

-- What is read at a lead byte behind which the text ends: the replacement, and the NUL is taken.
abbrev reads_nul : ℕ → Bool
reads_nul b = elim (Utf8.get 4 (b ∷ 0 ∷ [])) [
  | none ↦ false
  | some (code, p) ↦ (length p == 0) && (code == 0xFFFD)
]

nul_table : all_from 0xc2 51 reads_nul ≡ true
unfolding all_from Utf8.get Utf8.get_loop Utf8.decode_code
nul_table = refl

as_read :
    (o : Option (ℕ × List ℕ))
    → (elim o [ none ↦ false | some (code, p) ↦ (length p == 0) && (code == 0xFFFD) ]) ≡ true
    → o ≡ some (0xFFFD, [])
as_read none h = ground arith
as_read (some (code, [])) h = ground arith
as_read (some (code, x ∷ p)) h = ground arith

taken : (lead : ℕ) → 0xc2 ≤ lead → lead ≤ 0xf4 → Utf8.get 4 (lead ∷ 0 ∷ []) ≡ some (0xFFFD, [])
taken lead lo hi = as_read _ (all_from_lem 0xc2 51 reads_nul lead nul_table lo (omega arith))

past :
    (lead : ℕ) (buffer : List ℕ)
    → 0xc2 ≤ lead
    → lead ≤ 0xf4
    → Json.decode_round buffer (lead ∷ 0 ∷ []) ≡ some (Utf8.put buffer 0xFFFD, [])
unfolding Json.decode_round
past lead buffer lo hi =
    let high : leb 0x80 lead ≡ true = ground arith in
    rw (regular_high lead (omega arith), high, taken lead lo hi)

past_end : (fuel : ℕ) (buffer : List ℕ) → Json.decode_loop fuel buffer [] ≡ none
unfolding Json.decode_loop Json.decode_round
past_end zero buffer = refl
past_end (suc fuel) buffer = refl

loop_past :
    (fuel : ℕ) (buffer p b : List ℕ)
    → 0 < length p
    → Json.decode_round buffer p ≡ some (b, [])
    → Json.decode_loop fuel buffer p ≡ none
unfolding Json.decode_loop
loop_past zero buffer p b h e = refl
loop_past (suc fuel) buffer p b h e =
    let moved : (0 == length p) ≡ false = ground arith in rw e (rw moved (past_end fuel b))

-- A lead byte that the text ends behind: the round takes the terminating NUL with it and leaves the
-- pointer past the text, so that the decoder, whose next round reads there, has no result however
-- many rounds it is given.
pub decode_overrun :
    (lead : ℕ) (buffer : List ℕ)
    → 0xc2 ≤ lead
    → lead ≤ 0xf4
    → (Json.decode_round buffer (lead ∷ 0 ∷ []) ≡ some (Utf8.put buffer 0xFFFD, []))
      × ((fuel : ℕ) → Json.decode_loop fuel buffer (lead ∷ 0 ∷ []) ≡ none)
decode_overrun lead buffer lo hi =
    let round = past lead buffer lo hi in
    (
      round,
      λ fuel. loop_past fuel buffer (lead ∷ 0 ∷ []) (Utf8.put buffer 0xFFFD) (omega arith) round,
    )
