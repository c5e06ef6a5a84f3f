-- ===== src/Strings/Json/Rounds.antt =====
-- One round of `string_utf8_decode` on what `string_utf8_encode` writes for one code point.
use libreactorng.Prelude.{
  ℕ, suc, ◌+◌, ◌-◌, ◌/◌, ◌%◌, ◌^◌, ◌≤◌, ◌<◌, ◌≡◌, refl, ◌∙◌, ◌⊎◌, inl, inr, Bool, true, false,
  Option, some, none, List, [], ◌∷◌, ◌++◌, ◌==◌, leb, if◌then◌else◌, length, arith, ap, subst,
  lt_or_ge, ◌>>=◌, append_assoc, length-append, Bool-cases, lt→ltb, le→ltb, sym,
}
use libreactorng.Strings.Utf8
use libreactorng.Strings.Utf8.Codes.{IsScalar, utf8, put_lem, get-utf8, length-utf8}
use libreactorng.Strings.Utf8.Escapes.{
  escape, units, recovered, recovered_small, put_encoded_basic_lem, get_encoded-units,
}
use libreactorng.Strings.Json
use libreactorng.Strings.Json.{regular}
use libreactorng.Strings.Json.Encoded.{encoded_code, regular_high, utf8_high, utf8_ascii}

-- The code point that the decoder puts for one that the encoder escaped.
abbrev pub returned : Bool → ℕ → ℕ
returned true code = recovered code
returned false code = code

pub returned_small : (ascii : Bool) (code : ℕ) → code < 0x10000 → code ≡ returned ascii code
returned_small true code h = recovered_small code h
returned_small false code h = refl

-- A round that moves on is followed by the next.
goes_on :
    (fuel : ℕ) (buffer buffer' p p' : List ℕ)
    → Json.decode_round buffer p ≡ some (buffer', p')
    → length p' < length p
    → Json.decode_loop (suc fuel) buffer p ≡ Json.decode_loop fuel buffer' p'
unfolding Json.decode_loop
goes_on fuel buffer buffer' p p' e h =
    let moved : (length p' == length p) ≡ false = ground arith in rw e (rw moved)

abbrev Shorter : ℕ → Option (List ℕ × List ℕ) → Type 0
Shorter n none = Unit {0}
Shorter n (some (r, q)) = length q ≤ n

Shorter-suc :
    (n c : ℕ) (o : Option (List ℕ × List ℕ))
    → Shorter n o
    → Shorter (suc n) (o >>= λ r. some (c ∷ r.0, r.1))
Shorter-suc n c none h = tt
Shorter-suc n c (some (r, q)) h = omega arith

run_text-Shorter : (p : List ℕ) → Shorter (length p) (Json.run_text p)
unfolding Json.run_text
run_text-Shorter [] = tt
run_text-Shorter (c ∷ p) = elim (Bool-cases (regular c)) [
  | inl r ↦ rw r (Shorter-suc (length p) c (Json.run_text p) (run_text-Shorter p))
  | inr r ↦ rw r (omega arith)
]

regular_pair :
    (fuel : ℕ) (buffer : List ℕ) (c d : ℕ) (q : List ℕ) (o : Option (List ℕ × List ℕ))
    → regular c ≡ true
    → regular d ≡ true
    → Json.run_text q ≡ o
    → Shorter (length q) o
    → Json.decode_loop (suc fuel) buffer (c ∷ d ∷ q)
      ≡ Json.decode_loop (suc fuel) (buffer ++ (c ∷ [])) (d ∷ q)
unfolding Json.decode_round Json.run_text
regular_pair fuel buffer c d q none h r e s = unfold Json.decode_loop in rw (h, r, e)
regular_pair fuel buffer c d q (some (t, u)) h r e s =
    goes_on fuel buffer (buffer ++ (c ∷ d ∷ t)) (c ∷ d ∷ q) u (rw (h, r, e)) (omega arith)
    ∙ (ap (λ b. Json.decode_loop fuel b u) (sym (append_assoc buffer (c ∷ []) (d ∷ t)))
        ∙ sym (
            goes_on fuel (buffer ++ (c ∷ [])) ((buffer ++ (c ∷ [])) ++ (d ∷ t)) (d ∷ q) u
              (rw (r, e)) (omega arith)))

pub regular_round :
    (fuel : ℕ) (buffer : List ℕ) (c : ℕ) (p : List ℕ)
    → regular c ≡ true
    → 0 < length p
    → (Json.decode_loop (suc fuel) buffer (c ∷ p)
        ≡ Json.decode_loop (suc fuel) (buffer ++ (c ∷ [])) p)
      ⊎ (Json.decode_loop (suc fuel) buffer (c ∷ p) ≡ Json.decode_loop fuel (buffer ++ (c ∷ [])) p)
regular_round fuel buffer c [] h more = absurd (omega arith)
regular_round fuel buffer c (d ∷ q) h more = elim (Bool-cases (regular d)) [
  | inl r ↦ inl (regular_pair fuel buffer c d q (Json.run_text q) h r refl (run_text-Shorter q))
  | inr r ↦ inr (
      unfold Json.decode_round Json.run_text in
      goes_on fuel buffer (buffer ++ (c ∷ [])) (c ∷ d ∷ q) (d ∷ q) (rw (h, r)) (omega arith))
]

-- A pair of a backslash and one character.
escaped_pair :
    (fuel : ℕ) (buffer : List ℕ) (e plain : ℕ) (p : List ℕ)
    → (e == b'u') ≡ false
    → Json.unescaped e ≡ some plain
    → Json.decode_loop (suc fuel) buffer (b'\\' ∷ e ∷ p)
      ≡ Json.decode_loop fuel (buffer ++ (plain ∷ [])) p
unfolding Json.decode_round Json.regular
escaped_pair fuel buffer e plain p not_u is =
    goes_on fuel buffer (buffer ++ (plain ∷ [])) (b'\\' ∷ e ∷ p) p (rw (not_u, is)) (omega arith)

-- A `\uXXXX` escape, or two of them.
unit_round :
    (fuel : ℕ) (buffer t : List ℕ) (code : ℕ) (p : List ℕ)
    → Utf8.get_encoded (b'\\' ∷ b'u' ∷ t) ≡ some (code, p)
    → length p ≤ length t
    → code < 2 ^ 21
    → Json.decode_loop (suc fuel) buffer (b'\\' ∷ b'u' ∷ t)
      ≡ Json.decode_loop fuel (buffer ++ utf8 code) p
unfolding Json.decode_round Json.regular
unit_round fuel buffer t code p e shorter small =
    goes_on fuel buffer (Utf8.put buffer code) (b'\\' ∷ b'u' ∷ t) p (rw e) (omega arith)
    ∙ ap (λ b. Json.decode_loop fuel b p) (put_lem buffer code small)

escape_head :
    (w : ℕ) (p : List ℕ) → (t : List ℕ) × (escape w ++ p ≡ b'\\' ∷ b'u' ∷ t) × (length p ≤ length t)
unfolding escape
escape_head w p = (_, refl, omega arith)

units_head :
    (code : ℕ) (p : List ℕ)
    → (t : List ℕ) × (units code ++ p ≡ b'\\' ∷ b'u' ∷ t) × (length p ≤ length t)
units_head code p = elim (Bool-cases (leb 0x10000 code)) [
  | inr one ↦ rw one (escape_head code p)
  | inl two ↦
      let w1 : ℕ = 0xd800 + (code - 0x10000) / 1024 in
      let w2 : ℕ = 0xdc00 + (code - 0x10000) % 1024 in
      let (t, is, shorter) = escape_head w1 (escape w2 ++ p) in
      rw two
        (t, append_assoc (escape w1) (escape w2) p ∙ is, omega (arith, length-append (escape w2) p))
]

recovered-lt : (code : ℕ) → code < 0x110000 → recovered code < 2 ^ 21
unfolding recovered
recovered-lt code h = ground arith

escaped_units :
    (fuel : ℕ) (buffer : List ℕ) (code : ℕ) (p : List ℕ)
    → IsScalar code
    → Json.decode_loop (suc fuel) buffer (units code ++ p)
      ≡ Json.decode_loop fuel (buffer ++ utf8 (recovered code)) p
escaped_units fuel buffer code p scalar =
    let (t, is, shorter) = units_head code p in
    ap (Json.decode_loop (suc fuel) buffer) is
    ∙ unit_round fuel buffer t (recovered code) p
        (ap Utf8.get_encoded (sym is) ∙ get_encoded-units code p scalar) shorter
        (recovered-lt code scalar.0)

-- A sequence of two bytes or more.
sequence_round :
    (fuel : ℕ) (buffer : List ℕ) (code b : ℕ) (p q : List ℕ)
    → 0x80 ≤ b
    → code < 2 ^ 21
    → Utf8.get 4 (b ∷ q) ≡ some (code, p)
    → length p ≤ length q
    → Json.decode_loop (suc fuel) buffer (b ∷ q) ≡ Json.decode_loop fuel (buffer ++ utf8 code) p
unfolding Json.decode_round
sequence_round fuel buffer code b p q high small e shorter =
    let a : leb 0x80 b ≡ true = ground arith in
    goes_on fuel buffer (Utf8.put buffer code) (b ∷ q) p (rw (regular_high b high, a, e))
      (omega arith)
    ∙ ap (λ x. Json.decode_loop fuel x p) (put_lem buffer code small)

decoded_utf8 :
    (fuel : ℕ) (buffer : List ℕ) (code : ℕ) (p : List ℕ)
    → IsScalar code
    → 0x80 ≤ code
    → Json.decode_loop (suc fuel) buffer (utf8 code ++ p)
      ≡ Json.decode_loop fuel (buffer ++ utf8 code) p
decoded_utf8 fuel buffer code p scalar large =
    let (b, t, is, high) = utf8_high code large in
    ap (λ l. Json.decode_loop (suc fuel) buffer (l ++ p)) is
    ∙ sequence_round fuel buffer code b p (t ++ p) high (omega arith)
        (subst (λ l. Utf8.get 4 (l ++ p) ≡ some (code, p)) is
          (get-utf8 code 4 p scalar (ground (arith, length-utf8 code))))
        (omega (arith, length-append t p))

-- A byte below 0x80 that is not regular.
by_pair :
    (fuel : ℕ) (buffer : List ℕ) (c e : ℕ) (p : List ℕ)
    → Json.escaped [] c ≡ b'\\' ∷ e ∷ []
    → (e == b'u') ≡ false
    → Json.unescaped e ≡ some c
    → Json.decode_loop (suc fuel) buffer (Json.escaped [] c ++ p)
      ≡ Json.decode_loop fuel (buffer ++ (c ∷ [])) p
by_pair fuel buffer c e p is not_u plain =
    ap (λ l. Json.decode_loop (suc fuel) buffer (l ++ p)) is
    ∙ escaped_pair fuel buffer e c p not_u plain

by_units :
    (fuel : ℕ) (buffer : List ℕ) (c : ℕ) (p : List ℕ)
    → c < 0x80
    → Json.escaped [] c ≡ escape c
    → Json.decode_loop (suc fuel) buffer (Json.escaped [] c ++ p)
      ≡ Json.decode_loop fuel (buffer ++ (c ∷ [])) p
by_units fuel buffer c p h is =
    let one : leb 0x10000 c ≡ false = ground arith in
    let same : units c ≡ escape c = rw one in
    ap (λ l. Json.decode_loop (suc fuel) buffer (l ++ p)) (is ∙ sym same)
    ∙ (escaped_units fuel buffer c p (omega arith, inl (omega arith))
        ∙ ap (λ l. Json.decode_loop fuel (buffer ++ l) p)
            (ap utf8 (sym (recovered_small c (omega arith))) ∙ utf8_ascii c h))

decoded_escaped :
    (fuel : ℕ) (buffer : List ℕ) (c : ℕ) (p : List ℕ)
    → c < 0x80
    → Json.decode_loop (suc fuel) buffer (Json.escaped [] c ++ p)
      ≡ Json.decode_loop fuel (buffer ++ (c ∷ [])) p
unfolding Json.escaped Json.unescaped
decoded_escaped fuel buffer c p h = elim (Bool-cases (c == b'"')) [
  | inl e1 ↦ by_pair fuel buffer c b'"' p (rw e1) refl (ground arith)
  | inr n1 ↦ elim (Bool-cases (c == b'\\')) [
    | inl e2 ↦ by_pair fuel buffer c b'\\' p (rw (n1, e2)) refl (ground arith)
    | inr n2 ↦ elim (Bool-cases (c == 12)) [
      | inl e3 ↦ by_pair fuel buffer c b'f' p (rw (n1, n2, e3)) refl (ground arith)
      | inr n3 ↦ elim (Bool-cases (c == 10)) [
        | inl e4 ↦ by_pair fuel buffer c b'n' p (rw (n1, n2, n3, e4)) refl (ground arith)
        | inr n4 ↦ elim (Bool-cases (c == 13)) [
          | inl e5 ↦ by_pair fuel buffer c b'r' p (rw (n1, n2, n3, n4, e5)) refl (ground arith)
          | inr n5 ↦ elim (Bool-cases (c == 9)) [
            | inl e6 ↦
                by_pair fuel buffer c b't' p (rw (n1, n2, n3, n4, n5, e6)) refl (ground arith)
            | inr n6 ↦
                by_units fuel buffer c p h
                  (rw (n1, n2, n3, n4, n5, n6) (put_encoded_basic_lem [] c (omega arith)))
          ]
        ]
      ]
    ]
  ]
]

pub decoded_code :
    (fuel : ℕ) (ascii : Bool) (buffer : List ℕ) (code : ℕ) (p : List ℕ)
    → IsScalar code
    → regular code ≡ false
    → Json.decode_loop (suc fuel) buffer (encoded_code ascii code ++ p)
      ≡ Json.decode_loop fuel (buffer ++ utf8 (returned ascii code)) p
unfolding encoded_code
decoded_code fuel ascii buffer code p scalar special = elim (lt_or_ge code 0x80) [
  | inl small ↦
      rw (lt→ltb code 0x80 small, special)
        (decoded_escaped fuel buffer code p small
          ∙ ap (λ l. Json.decode_loop fuel (buffer ++ l) p)
              (sym (utf8_ascii code small) ∙ ap utf8 (returned_small ascii code (omega arith))))
  | inr large ↦ rw (le→ltb code 0x80 large) (high ascii large)
]
  where
    high :
        (a : Bool)
        → 0x80 ≤ code
        → Json.decode_loop (suc fuel) buffer ((if a then units code else utf8 code) ++ p)
          ≡ Json.decode_loop fuel (buffer ++ utf8 (returned a code)) p
    high true large = escaped_units fuel buffer code p scalar
    high false large = decoded_utf8 fuel buffer code p scalar large
