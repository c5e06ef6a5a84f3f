-- ===== src/Strings/Utf8/Codes.antt =====
-- `string_utf8_put` writes the encoding of RFC 3629, and `string_utf8_get` reads it back.
use libreactorng.Prelude.{
  ℕ, suc, ◌+◌, ◌-◌, ◌*◌, ◌/◌, ◌%◌, ◌^◌, ◌≤◌, ◌<◌, ◌≡◌, ◌≢◌, ◌∙◌, ◌⊎◌, inl, inr, true, false, Option,
  some, List, [], ◌∷◌, ◌++◌, ◌==◌, ltb, if◌then◌else◌, length, arith, ap, subst, sym, lt_or_ge,
}
use libreactorng.Prelude.Bits.{bit_or-disjoint, bit_and-mask}
use libreactorng.Strings.Utf8
use libreactorng.Strings.Utf8.{decode_code}
use libreactorng.Strings.Utf8.Steps.{
  Leads, Starts, continues, starts, Starts-ascii, Starts-two, Starts-e0, Starts-e1, Starts-ed,
  Starts-ee, Starts-f0, Starts-f1, Starts-f4, Leads-last, Leads-e0, Leads-three, Leads-ed, Leads-f0,
  Leads-four, Leads-f4,
}

-- A Unicode scalar value: a code point that is no surrogate.
abbrev pub IsScalar : ℕ → Type 0
IsScalar code = (code < 0x110000) × ((code < 0xd800) ⊎ (0xe000 ≤ code))

-- The UTF-8 encoding of a code point.
unfoldable pub utf8 : ℕ → List ℕ
utf8 code =
    if ltb code 0x80
    then code ∷ []
    else if ltb code 0x800
    then (0xc0 + code / 64) ∷ (0x80 + code % 64) ∷ []
    else if ltb code 0x10000
    then (0xe0 + code / 4096) ∷ (0x80 + code / 64 % 64) ∷ (0x80 + code % 64) ∷ []
    else (0xf0 + code / 262144)
      ∷ (0x80 + code / 4096 % 64)
      ∷ (0x80 + code / 64 % 64)
      ∷ (0x80 + code % 64)
      ∷ []

-- `string_utf8_put` appends the UTF-8 encoding of a code point below 2 ^ 21.
pub put_lem :
    (buffer : List ℕ) (code : ℕ) → code < 2 ^ 21 → Utf8.put buffer code ≡ buffer ++ utf8 code
unfolding Utf8.put utf8
put_lem buffer code h = ground (
  arith,
  bit_or-disjoint 5 6 (code / 64),
  bit_or-disjoint 4 14 (code / 4096),
  bit_or-disjoint 3 30 (code / 262144),
  bit_or-disjoint 6 2 (code % 64),
  bit_or-disjoint 6 2 (code / 64 % 64),
  bit_or-disjoint 6 2 (code / 4096 % 64),
  bit_and-mask 6 code,
  bit_and-mask 6 (code / 64),
  bit_and-mask 6 (code / 4096),
)

step_last :
    (left byte state code code' : ℕ) (rest : List ℕ)
    → decode_code state code byte ≡ (0, code')
    → Utf8.get_loop (suc left) (byte ∷ rest) state code ≡ some (code', rest)
unfolding Utf8.get_loop
step_last left byte state code code' rest e = rw e

step_more :
    (left byte state code next code' : ℕ) (rest : List ℕ)
    → decode_code state code byte ≡ (next, code')
    → next ≢ 0
    → next ≢ 12
    → Utf8.get_loop (suc (suc left)) (byte ∷ rest) state code
      ≡ Utf8.get_loop (suc left) rest next code'
unfolding Utf8.get_loop
step_more left byte state code next code' rest e p q =
    let a : (next == 0) ≡ false = ground arith in
    let b : (next == 12) ≡ false = ground arith in
    let c : (suc left == 0) ≡ false = ground arith in rw e (rw (a, b, c))

-- The same result under another form of its code.
read_as :
    (c d : ℕ) (rest : List ℕ)
    → c ≡ d
    → ◌≡◌ {A = Option (ℕ × List ℕ)} (some (c, rest)) (some (d, rest))
read_as c d rest e = ap (λ x. some (x, rest)) e

module _ (k : ℕ) (rest : List ℕ) where
  get_one : (b0 : ℕ) → b0 < 0x80 → Utf8.get (suc k) (b0 ∷ rest) ≡ some (b0, rest)
  unfolding Utf8.get
  get_one b0 h =
      step_last k b0 0 0 (b0 - 0) rest (starts b0 0 0x80 0 0 Starts-ascii (omega arith) h)
      ∙ read_as (b0 - 0) b0 rest (omega arith)

  get_two :
      (b0 b1 : ℕ)
      → 0xc2 ≤ b0
      → b0 < 0xe0
      → 0x80 ≤ b1
      → b1 < 0xc0
      → Utf8.get (suc (suc k)) (b0 ∷ b1 ∷ rest) ≡ some ((b0 - 0xc0) * 64 + (b1 - 0x80), rest)
  unfolding Utf8.get
  get_two b0 b1 l0 h0 l1 h1 =
      step_more k b0 0 0 24 (b0 - 0xc0) (b1 ∷ rest)
        (starts b0 0xc2 30 24 0xc0 Starts-two l0 (omega arith)) (omega arith) (omega arith)
      ∙ step_last k b1 24 (b0 - 0xc0) _ rest (
          continues 24 (b0 - 0xc0) 0x80 64 0 b1 Leads-last (omega arith) (omega arith) (omega arith)
            (omega arith) l1 (omega arith))

  -- A lead byte of a range, and a second byte of a range that the state after it allows.
  get_three :
      (s lo n lo1 n1 b0 b1 b2 : ℕ)
      → Starts lo n s 0xe0
      → Leads s lo1 n1 24
      → (s ≢ 0) × (s ≢ 12)
      → (0x80 ≤ lo1) × (lo1 + n1 ≤ 0xc0)
      → (lo ≤ b0) × (b0 < lo + n) × (b0 < 0xf0)
      → (lo1 ≤ b1) × (b1 < lo1 + n1)
      → (0x80 ≤ b2) × (b2 < 0xc0)
      → Utf8.get (suc (suc (suc k))) (b0 ∷ b1 ∷ b2 ∷ rest)
        ≡ some (((b0 - 0xe0) * 64 + (b1 - 0x80)) * 64 + (b2 - 0x80), rest)
  unfolding Utf8.get
  get_three s lo n lo1 n1 b0 b1 b2 lead second stays cont r0 r1 r2 =
      let c1 : ℕ = (b0 - 0xe0) * 64 + (b1 - 0x80) in
      step_more (suc k) b0 0 0 s (b0 - 0xe0) (b1 ∷ b2 ∷ rest) (starts b0 lo n s 0xe0 lead r0.0 r0.1)
        stays.0 stays.1
      ∙ (step_more k b1 s (b0 - 0xe0) 24 c1 (b2 ∷ rest)
            (continues s (b0 - 0xe0) lo1 n1 24 b1 second stays.0 (omega arith) cont.0 cont.1 r1.0
              r1.1)
            (omega arith) (omega arith)
          ∙ step_last k b2 24 c1 _ rest (
              continues 24 c1 0x80 64 0 b2 Leads-last (omega arith) (omega arith) (omega arith)
                (omega arith) r2.0 (omega arith)))

  get_four :
      (s lo n lo1 n1 b0 b1 b2 b3 : ℕ)
      → Starts lo n s 0xf0
      → Leads s lo1 n1 36
      → (s ≢ 0) × (s ≢ 12)
      → (0x80 ≤ lo1) × (lo1 + n1 ≤ 0xc0)
      → (lo ≤ b0) × (b0 < lo + n) × (b0 < 0xf8)
      → (lo1 ≤ b1) × (b1 < lo1 + n1)
      → (0x80 ≤ b2) × (b2 < 0xc0)
      → (0x80 ≤ b3) × (b3 < 0xc0)
      → Utf8.get (suc (suc (suc (suc k)))) (b0 ∷ b1 ∷ b2 ∷ b3 ∷ rest)
        ≡ some ((((b0 - 0xf0) * 64 + (b1 - 0x80)) * 64 + (b2 - 0x80)) * 64 + (b3 - 0x80), rest)
  unfolding Utf8.get
  get_four s lo n lo1 n1 b0 b1 b2 b3 lead second stays cont r0 r1 r2 r3 =
      let c1 : ℕ = (b0 - 0xf0) * 64 + (b1 - 0x80) in
      let c2 : ℕ = c1 * 64 + (b2 - 0x80) in
      step_more (suc (suc k)) b0 0 0 s (b0 - 0xf0) (b1 ∷ b2 ∷ b3 ∷ rest)
        (starts b0 lo n s 0xf0 lead r0.0 r0.1) stays.0 stays.1
      ∙ (step_more (suc k) b1 s (b0 - 0xf0) 36 c1 (b2 ∷ b3 ∷ rest)
            (continues s (b0 - 0xf0) lo1 n1 36 b1 second stays.0 (omega arith) cont.0 cont.1 r1.0
              r1.1)
            (omega arith) (omega arith)
          ∙ (step_more k b2 36 c1 24 c2 (b3 ∷ rest)
                (continues 36 c1 0x80 64 24 b2 Leads-three (omega arith) (omega arith) (omega arith)
                  (omega arith) r2.0 (omega arith))
                (omega arith) (omega arith)
              ∙ step_last k b3 24 c2 _ rest (
                  continues 24 c2 0x80 64 0 b3 Leads-last (omega arith) (omega arith) (omega arith)
                    (omega arith) r3.0 (omega arith))))

abbrev Reads : ℕ → ℕ → List ℕ → Type 0
Reads n code rest = Utf8.get n (utf8 code ++ rest) ≡ some (code, rest)

get-utf8_two :
    (code k : ℕ) (rest : List ℕ) → 0x80 ≤ code → code < 0x800 → Reads (suc (suc k)) code rest
unfolding utf8
get-utf8_two code k rest l h =
    let a : ltb code 0x80 ≡ false = ground arith in
    let b : ltb code 0x800 ≡ true = ground arith in
    rw (a, b)
      (get_two k rest (0xc0 + code / 64) (0x80 + code % 64) (omega arith) (omega arith)
          (omega arith) (omega arith)
        ∙ read_as _ code rest (omega arith))

get-utf8_three :
    (code k : ℕ) (rest : List ℕ)
    → 0x800 ≤ code
    → code < 0x10000
    → (code < 0xd800) ⊎ (0xe000 ≤ code)
    → Reads (suc (suc (suc k))) code rest
unfolding utf8
get-utf8_three code k rest l h scalar =
    let a : ltb code 0x80 ≡ false = ground arith in
    let b : ltb code 0x800 ≡ false = ground arith in
    let c : ltb code 0x10000 ≡ true = ground arith in
    let b0 : ℕ = 0xe0 + code / 4096 in
    let b1 : ℕ = 0x80 + code / 64 % 64 in
    let b2 : ℕ = 0x80 + code % 64 in
    let exact =
      read_as (((b0 - 0xe0) * 64 + (b1 - 0x80)) * 64 + (b2 - 0x80)) code rest (omega arith) in
    rw (a, b, c)
      (elim (lt_or_ge code 0x1000) [
        | inl p ↦
            get_three k rest 48 0xe0 1 0xa0 32 b0 b1 b2 Starts-e0 Leads-e0 (omega arith)
              (omega arith) (omega arith) (omega arith) (omega arith)
            ∙ exact
        | inr p ↦ elim (lt_or_ge code 0xd000) [
          | inl q ↦
              get_three k rest 36 0xe1 12 0x80 64 b0 b1 b2 Starts-e1 Leads-three (omega arith)
                (omega arith) (omega arith) (omega arith) (omega arith)
              ∙ exact
          | inr q ↦ elim (lt_or_ge code 0xe000) [
            | inl r ↦
                get_three k rest 60 0xed 1 0x80 32 b0 b1 b2 Starts-ed Leads-ed (omega arith)
                  (omega arith) (omega arith) (omega arith) (omega arith)
                ∙ exact
            | inr r ↦
                get_three k rest 36 0xee 2 0x80 64 b0 b1 b2 Starts-ee Leads-three (omega arith)
                  (omega arith) (omega arith) (omega arith) (omega arith)
                ∙ exact
          ]
        ]
      ])

get-utf8_four :
    (code k : ℕ) (rest : List ℕ)
    → 0x10000 ≤ code
    → code < 0x110000
    → Reads (suc (suc (suc (suc k)))) code rest
unfolding utf8
get-utf8_four code k rest l h =
    let a : ltb code 0x80 ≡ false = ground arith in
    let b : ltb code 0x800 ≡ false = ground arith in
    let c : ltb code 0x10000 ≡ false = ground arith in
    let b0 : ℕ = 0xf0 + code / 262144 in
    let b1 : ℕ = 0x80 + code / 4096 % 64 in
    let b2 : ℕ = 0x80 + code / 64 % 64 in
    let b3 : ℕ = 0x80 + code % 64 in
    let exact =
      read_as ((((b0 - 0xf0) * 64 + (b1 - 0x80)) * 64 + (b2 - 0x80)) * 64 + (b3 - 0x80)) code rest
        (omega arith) in
    rw (a, b, c)
      (elim (lt_or_ge code 0x40000) [
        | inl p ↦
            get_four k rest 72 0xf0 1 0x90 48 b0 b1 b2 b3 Starts-f0 Leads-f0 (omega arith)
              (omega arith) (omega arith) (omega arith) (omega arith) (omega arith)
            ∙ exact
        | inr p ↦ elim (lt_or_ge code 0x100000) [
          | inl q ↦
              get_four k rest 84 0xf1 3 0x80 64 b0 b1 b2 b3 Starts-f1 Leads-four (omega arith)
                (omega arith) (omega arith) (omega arith) (omega arith) (omega arith)
              ∙ exact
          | inr q ↦
              get_four k rest 96 0xf4 1 0x80 16 b0 b1 b2 b3 Starts-f4 Leads-f4 (omega arith)
                (omega arith) (omega arith) (omega arith) (omega arith) (omega arith)
              ∙ exact
        ]
      ])

get-utf8_one : (code k : ℕ) (rest : List ℕ) → code < 0x80 → Reads (suc k) code rest
unfolding utf8
get-utf8_one code k rest h =
    let a : ltb code 0x80 ≡ true = ground arith in rw a (get_one k rest code h)

pub length-utf8 :
    (code : ℕ)
    → length (utf8 code) ≡ (
        if ltb code 0x80
        then 1
        else if ltb code 0x800
        then 2
        else if ltb code 0x10000
        then 3
        else 4)
unfolding utf8
length-utf8 code = ground arith

-- The encoding of every Unicode scalar value is read back.
pub get-utf8 :
    (code n : ℕ) (rest : List ℕ)
    → IsScalar code
    → length (utf8 code) ≤ n
    → Utf8.get n (utf8 code ++ rest) ≡ some (code, rest)
get-utf8 code n rest scalar room = elim (lt_or_ge code 0x80) [
  | inl p ↦
      subst (λ m. Reads m code rest) {x = suc (n - 1)} (ground (arith, length-utf8 code))
        (get-utf8_one code (n - 1) rest p)
  | inr p ↦ elim (lt_or_ge code 0x800) [
    | inl q ↦
        subst (λ m. Reads m code rest) {x = suc (suc (n - 2))} (ground (arith, length-utf8 code))
          (get-utf8_two code (n - 2) rest p q)
    | inr q ↦ elim (lt_or_ge code 0x10000) [
      | inl r ↦
          subst (λ m. Reads m code rest) {x = suc (suc (suc (n - 3)))}
            (ground (arith, length-utf8 code)) (get-utf8_three code (n - 3) rest q r scalar.1)
      | inr r ↦
          subst (λ m. Reads m code rest) {x = suc (suc (suc (suc (n - 4))))}
            (ground (arith, length-utf8 code)) (get-utf8_four code (n - 4) rest r scalar.0)
    ]
  ]
]

-- `string_utf8_get` reads back what `string_utf8_put` wrote for a Unicode scalar value, whatever
-- follows it and however far the text goes on, and stops right behind it.
pub get-put :
    (code n : ℕ) (rest : List ℕ)
    → IsScalar code
    → length (Utf8.put [] code) ≤ n
    → Utf8.get n (Utf8.put [] code ++ rest) ≡ some (code, rest)
get-put code n rest scalar room =
    let is = put_lem [] code (omega arith) in
    subst (λ t. Utf8.get n (t ++ rest) ≡ some (code, rest)) (sym is)
      (get-utf8 code n rest scalar (omega (arith, ap (λ (l : List ℕ). length l) is)))
