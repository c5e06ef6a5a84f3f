-- ===== src/Strings/Json/Encoded.antt =====
-- `string_utf8_encode` on well-formed UTF-8: code point by code point.
use libreactorng.Prelude.{
  ℕ, zero, suc, ◌+◌, ◌/◌, ◌%◌, ◌≤◌, ◌<◌, ◌≡◌, ◌∙◌, ◌⊎◌, inl, inr, Bool, true, false, some, List, [],
  ◌∷◌, ◌++◌, ltb, leb, if◌then◌else◌, length, arith, ap, subst, lt_or_ge, append_assoc,
  length-append, Bool-cases, append-nil, lt→ltb, le→ltb, sym,
}
use libreactorng.Strings.Utf8
use libreactorng.Strings.Utf8.Codes.{IsScalar, utf8, put_lem, get-utf8, length-utf8}
use libreactorng.Strings.Utf8.Escapes.{units, put_encoded_lem, put_encoded_basic_lem}
use libreactorng.Strings.Json
use libreactorng.Strings.Json.{regular}

-- The UTF-8 text of a list of code points.
unfoldable pub utf8s : List ℕ → List ℕ
utf8s [] = []
utf8s (code ∷ codes) = utf8 code ++ utf8s codes

abbrev pub AllScalar : List ℕ → Type 0
AllScalar [] = Unit {0}
AllScalar (code ∷ codes) = IsScalar code × AllScalar codes

-- What the encoder writes for one code point.
unfoldable pub encoded_code : Bool → ℕ → List ℕ
encoded_code ascii code =
    if ltb code 0x80
    then (if regular code then code ∷ [] else Json.escaped [] code)
    else if ascii
    then units code
    else utf8 code

unfoldable pub encoded : Bool → List ℕ → List ℕ
encoded ascii [] = []
encoded ascii (code ∷ codes) = encoded_code ascii code ++ encoded ascii codes

pub regular-lt : (c : ℕ) → regular c ≡ true → c < 0x80
unfolding regular
regular-lt c h = ground arith

pub regular_high : (c : ℕ) → 0x80 ≤ c → regular c ≡ false
unfolding regular
regular_high c h = ground arith

pub escaped_lem :
    (buffer : List ℕ) (c : ℕ) → c < 0x80 → Json.escaped buffer c ≡ buffer ++ Json.escaped [] c
unfolding Json.escaped
escaped_lem buffer c h =
    ground (
      arith,
      put_encoded_basic_lem buffer c (omega arith),
      put_encoded_basic_lem [] c (omega arith),
    )

-- A regular byte in front: the round goes on with the rest, or ends behind the byte.
regular_round :
    (fuel : ℕ) (ascii : Bool) (buffer : List ℕ) (c : ℕ) (p : List ℕ)
    → regular c ≡ true
    → (Json.encode (suc fuel) ascii buffer (c ∷ p)
        ≡ Json.encode (suc fuel) ascii (buffer ++ (c ∷ [])) p)
      ⊎ (Json.encode (suc fuel) ascii buffer (c ∷ p)
          ≡ Json.encode fuel ascii (buffer ++ (c ∷ [])) p)
unfolding Json.encode Json.encode_round Json.run
regular_round fuel ascii buffer c [] h = inr (rw h)
regular_round fuel ascii buffer c (d ∷ q) h = elim (Bool-cases (regular d)) [
  | inl r ↦ inl (
      rw (h, r)
        (ap (λ b. Json.encode fuel ascii b (Json.run q).1)
          (sym (append_assoc buffer (c ∷ []) (d ∷ (Json.run q).0)))))
  | inr r ↦ inr (rw (h, r))
]

pub utf8_ascii : (code : ℕ) → code < 0x80 → utf8 code ≡ code ∷ []
unfolding utf8
utf8_ascii code h = rw (lt→ltb code 0x80 h)

-- The first byte of a longer sequence.
pub utf8_high : (code : ℕ) → 0x80 ≤ code → (b : ℕ) × (t : List ℕ) × (utf8 code ≡ b ∷ t) × (0x80 ≤ b)
unfolding utf8
utf8_high code h = elim (Bool-cases (ltb code 0x800)) [
  | inl a ↦ (0xc0 + code / 64, (0x80 + code % 64) ∷ [], rw (le→ltb code 0x80 h, a), omega arith)
  | inr a ↦ elim (Bool-cases (ltb code 0x10000)) [
    | inl b ↦ (
      0xe0 + code / 4096,
      (0x80 + code / 64 % 64) ∷ (0x80 + code % 64) ∷ [],
      rw (le→ltb code 0x80 h, a, b),
      omega arith,
    )
    | inr b ↦ (
      0xf0 + code / 262144,
      (0x80 + code / 4096 % 64) ∷ (0x80 + code / 64 % 64) ∷ (0x80 + code % 64) ∷ [],
      rw (le→ltb code 0x80 h, a, b),
      omega arith,
    )
  ]
]

-- A byte or a sequence that is not regular takes one round.
special_ascii :
    (fuel : ℕ) (ascii : Bool) (buffer : List ℕ) (code : ℕ) (p : List ℕ)
    → code < 0x80
    → regular code ≡ false
    → Json.encode (suc fuel) ascii buffer (code ∷ p)
      ≡ Json.encode fuel ascii (buffer ++ encoded_code ascii code) p
unfolding Json.encode Json.encode_round encoded_code
special_ascii fuel ascii buffer code p h special =
    let a : leb 0x80 code ≡ false = ground arith in
    rw (special, a, lt→ltb code 0x80 h)
      (ap (λ b. Json.encode fuel ascii b p) (escaped_lem buffer code h))

special_high :
    (fuel : ℕ) (ascii : Bool) (buffer : List ℕ) (code b : ℕ) (p q : List ℕ)
    → 0x80 ≤ b
    → 0x80 ≤ code
    → code < 0x110000
    → Utf8.get (suc (length q)) (b ∷ q) ≡ some (code, p)
    → Json.encode (suc fuel) ascii buffer (b ∷ q)
      ≡ Json.encode fuel ascii (buffer ++ encoded_code ascii code) p
unfolding Json.encode Json.encode_round encoded_code
special_high fuel true buffer code b p q hb hc small e =
    let a : leb 0x80 b ≡ true = ground arith in
    rw (regular_high b hb, a, e, le→ltb code 0x80 hc)
      (ap (λ b. Json.encode fuel true b p) (put_encoded_lem buffer code small))
special_high fuel false buffer code b p q hb hc small e =
    let a : leb 0x80 b ≡ true = ground arith in
    rw (regular_high b hb, a, e, le→ltb code 0x80 hc)
      (ap (λ b. Json.encode fuel false b p) (put_lem buffer code (omega arith)))

special_round :
    (fuel : ℕ) (ascii : Bool) (buffer : List ℕ) (code : ℕ) (p : List ℕ)
    → IsScalar code
    → regular code ≡ false
    → Json.encode (suc fuel) ascii buffer (utf8 code ++ p)
      ≡ Json.encode fuel ascii (buffer ++ encoded_code ascii code) p
special_round fuel ascii buffer code p scalar special = elim (lt_or_ge code 0x80) [
  | inl small ↦
      ap (λ t. Json.encode (suc fuel) ascii buffer (t ++ p)) (utf8_ascii code small)
      ∙ special_ascii fuel ascii buffer code p small special
  | inr large ↦
      let (b, t, is, high) = utf8_high code large in
      ap (λ t. Json.encode (suc fuel) ascii buffer (t ++ p)) is
      ∙ special_high fuel ascii buffer code b p (t ++ p) high large scalar.0 (
          subst (λ l. Utf8.get (suc (length (t ++ p))) (l ++ p) ≡ some (code, p)) is
            (get-utf8 code (suc (length (t ++ p))) p scalar
              (omega (arith, length-append t p, ap (λ (l : List ℕ). length l) is))))
]

pub encoded_code-regular :
    (ascii : Bool) (code : ℕ) → regular code ≡ true → encoded_code ascii code ≡ code ∷ []
unfolding encoded_code
encoded_code-regular ascii code h = rw (lt→ltb code 0x80 (regular-lt code h), h)

-- With a round for each byte and one more, the encoder ends on every text of Unicode scalar values,
-- and writes each code point's encoding in turn.
pub encode_lem :
    (codes : List ℕ) (fuel : ℕ) (ascii : Bool) (buffer : List ℕ)
    → AllScalar codes
    → length (utf8s codes) < fuel
    → Json.encode fuel ascii buffer (utf8s codes) ≡ some (buffer ++ encoded ascii codes)
unfolding utf8s encoded
encode_lem codes zero ascii buffer all h = absurd (omega arith)
encode_lem [] (suc fuel) ascii buffer all h =
    unfold Json.encode in ap some (sym (append-nil buffer))
encode_lem (code ∷ codes) (suc fuel) ascii buffer all h =
    let size = length-append (utf8 code) (utf8s codes) in
    let joined : (buffer ++ encoded_code ascii code) ++ encoded ascii codes
        ≡ buffer ++ (encoded_code ascii code ++ encoded ascii codes) =
      append_assoc buffer (encoded_code ascii code) (encoded ascii codes) in
    elim (Bool-cases (regular code)) [
      | inr special ↦
          special_round fuel ascii buffer code (utf8s codes) all.0 special
          ∙ (encode_lem codes fuel ascii (buffer ++ encoded_code ascii code) all.1
                (ground (arith, size, length-utf8 code))
              ∙ ap some joined)
      | inl plain ↦
          let one = utf8_ascii code (regular-lt code plain) in
          let same = encoded_code-regular ascii code plain in
          ap (λ t. Json.encode (suc fuel) ascii buffer (t ++ utf8s codes)) one
          ∙ (elim (regular_round fuel ascii buffer code (utf8s codes) plain) [
            | inl on ↦
                on
                ∙ encode_lem codes (suc fuel) ascii (buffer ++ (code ∷ [])) all.1
                    (ground (arith, size, length-utf8 code))
            | inr stop ↦
                stop
                ∙ encode_lem codes fuel ascii (buffer ++ (code ∷ [])) all.1
                    (ground (arith, size, length-utf8 code))
          ]
              ∙ ap some (ap (λ t. (buffer ++ t) ++ encoded ascii codes) (sym same) ∙ joined))
    ]
