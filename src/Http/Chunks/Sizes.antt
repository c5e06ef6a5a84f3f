-- ===== src/Http/Chunks/Sizes.antt =====
-- The line of a chunk's size: `http_chunk_size` stays inside the slice.
use libreactorng.Prelude.{
  ℕ, ◌+◌, ◌*◌, ◌-◌, ◌^◌, ◌≤◌, ◌<◌, ◌≡◌, refl, sym, ◌≢◌, ap, ◌∙◌, Bool, true, false, some, List, [],
  ◌∷◌, ◌==◌, ltb, ◌||◌, ◌&&◌, length, arith, Bool-cases, inl, inr, min,
}
use libreactorng.Prelude.Numerals.{
  isblank, isspace, digit, digits_value, skip_spaces, skip_prefix, strtoul,
}
use libreactorng.Strings.Utf8.{isxdigit}
use libreactorng.Http.Chunks
use libreactorng.Http.Chunks.{Parsed, bad, partial, whole, has_newline}

-- A result of a function on `s`: the bytes taken are in `s`, and at least one.
abbrev pub IsWithin : {A : Type 0} → List ℕ → Parsed A → Type 0
IsWithin s bad = Unit {0}
IsWithin s partial = Unit {0}
IsWithin s (whole n a) = (0 < n) × (n ≤ length s)

-- A text with a line feed at its front or further on, not longer than `s`.
pub record IsRest (s p : List ℕ) : Type 0 where
  pub line : has_newline p ≡ true
  pub shorter : length p ≤ length s

passed_newline :
    (test : ℕ → Bool) (c : ℕ) (p : List ℕ)
    → test 10 ≡ false
    → test c ≡ true
    → has_newline (c ∷ p) ≡ true
    → has_newline p ≡ true
unfolding has_newline
passed_newline test c p stops pass h = elim (Bool-cases (c == 10)) [
  | inl e ↦ (let same : c ≡ 10 = ground (arith, e) in ground (arith, ap test same))
  | inr e ↦ ground arith
]

skip_lem :
    (test : ℕ → Bool) (p : List ℕ)
    → test 10 ≡ false
    → has_newline p ≡ true
    → (q : List ℕ) × (Chunks.skip test p ≡ some q) × IsRest p q
unfolding Chunks.skip has_newline
skip_lem test [] stops h = ground arith
skip_lem test (c ∷ p) stops h = elim (Bool-cases (test c)) [
  | inl pass ↦
      let (q, e, r) = skip_lem test p stops (passed_newline test c p stops pass h) in
      (q, ground (arith, e), record { line = r.line; shorter = omega (arith, r.shorter) })
  | inr stop ↦ (c ∷ p, ground arith, record { line = h; shorter = omega arith })
]

line_end_lem :
    (before : ℕ) (p : List ℕ)
    → has_newline p ≡ true
    → (b : ℕ) × (q : List ℕ) × (Chunks.line_end before p ≡ some (b, q)) × IsRest p q
unfolding Chunks.line_end has_newline
line_end_lem before [] h = ground arith
line_end_lem before (c ∷ p) h = elim (Bool-cases (c == 10)) [
  | inl stop ↦ (before, c ∷ p, ground arith, record { line = h; shorter = omega arith })
  | inr pass ↦
      let (b, q, e, r) = line_end_lem c p (ground arith) in
      (b, q, ground (arith, e), record { line = r.line; shorter = omega (arith, r.shorter) })
]

digits_value_lem :
    (s : List ℕ) (n : ℕ) → has_newline s ≡ true → (v : ℕ) × (digits_value 16 s n ≡ some v)
unfolding digits_value digit has_newline
digits_value_lem [] n h = ground arith
digits_value_lem (c ∷ s) n h = elim (Bool-cases (ltb (digit c) 16)) [
  | inl more ↦
      let next : has_newline s ≡ true =
        passed_newline (λ x. ltb (digit x) 16) c s digit_newline more h in
      let (v, e) = digits_value_lem s (n * 16 + digit c) next in (v, ground (arith, e))
  | inr stop ↦ (n, ground arith)
]
  where
    digit_newline : ltb (digit 10) 16 ≡ false
    digit_newline = refl

skip_prefix_lem : (s : List ℕ) → has_newline s ≡ true → has_newline (skip_prefix 16 s) ≡ true
unfolding skip_prefix has_newline
skip_prefix_lem [] h = h
skip_prefix_lem (z ∷ []) h = h
skip_prefix_lem (z ∷ x ∷ []) h = h
skip_prefix_lem (z ∷ x ∷ d ∷ s) h =
    elim (Bool-cases (z == b'0' && ((x == b'x' || x == b'X') && ltb (digit d) 16))) [
      | inl e ↦ ground arith
      | inr e ↦ ground arith
    ]

-- `strtoul` at a hexadecimal digit of a line.
strtoul_lem :
    (c : ℕ) (s : List ℕ)
    → isxdigit c ≡ true
    → has_newline (c ∷ s) ≡ true
    → (v : ℕ) × (strtoul 16 (c ∷ s) ≡ some v) × (v < 2 ^ 64)
unfolding strtoul isspace skip_spaces isxdigit
strtoul_lem c s x h =
    let (v, e) = digits_value_lem (skip_prefix 16 (c ∷ s)) 0 (skip_prefix_lem (c ∷ s) h) in
    (min v (2 ^ 64 - 1), ground (arith, e), omega arith)

size_end_lem :
    (s p : List ℕ) (c : ℕ) (t : List ℕ)
    → isxdigit c ≡ true
    → has_newline (c ∷ t) ≡ true
    → IsRest s p
    → (r : Parsed ℕ) × (Chunks.size_end s (c ∷ t) p ≡ some r) × IsWithin s r
unfolding Chunks.size_end Chunks.head has_newline
size_end_lem s [] c t x h r = ground (arith, r.line)
size_end_lem s (a ∷ p) c t x h r =
    let (v, e, small) = strtoul_lem c t x h in
    elim (Bool-cases (a == 10)) [
      | inr other ↦ (bad, ground arith, tt)
      | inl line ↦ elim (Bool-cases (v == 2 ^ 64 - 1)) [
        | inl over ↦ (bad, ground (arith, e), tt)
        | inr fine ↦ (
          whole (length s - length p) v,
          ground (arith, e),
          (omega (arith, r.shorter), omega arith),
        )
      ]
    ]

size_line_lem :
    (s p : List ℕ) (c : ℕ) (t : List ℕ)
    → isxdigit c ≡ true
    → has_newline (c ∷ t) ≡ true
    → IsRest s p
    → (r : Parsed ℕ) × (Chunks.size_line s (c ∷ t) p ≡ some r) × IsWithin s r
unfolding Chunks.size_line Chunks.head has_newline
size_line_lem s [] c t x h r = ground (arith, r.line)
size_line_lem s (a ∷ p) c t x h r = elim (Bool-cases (a == b';')) [
  | inl extended ↦
      let (b, q, e, q_rest) = line_end_lem 0 (a ∷ p) r.line in
      elim (Bool-cases (b == 13)) [
        | inr other ↦ (bad, ground (arith, e), tt)
        | inl return ↦
            let (result, done, within) =
              size_end_lem s q c t x h (record {
                line = q_rest.line;
                shorter = omega (arith, q_rest.shorter, r.shorter);
              }) in
            (result, ground (arith, e, done), within)
      ]
  | inr plain ↦ elim (Bool-cases (a == 13)) [
    | inr other ↦ (bad, ground arith, tt)
    | inl return ↦
        let (result, done, within) =
          size_end_lem s p c t x h
            (record { line = ground (arith, r.line); shorter = omega (arith, r.shorter) }) in
        (result, ground (arith, done), within)
  ]
]

-- A skip that moved has passed over a digit.
first_digit :
    (digits p : List ℕ)
    → Chunks.skip isxdigit digits ≡ some p
    → length p ≢ length digits
    → (c : ℕ) × (t : List ℕ) × (digits ≡ c ∷ t) × (isxdigit c ≡ true)
unfolding Chunks.skip
first_digit [] p e moved = ground arith
first_digit (c ∷ t) p e moved = elim (Bool-cases (isxdigit c)) [
  | inl x ↦ (c, t, refl, x)
  | inr stop ↦ let same : some (c ∷ t) ≡ some p = ground arith in ground (arith, same, moved)
]

-- `http_chunk_size` returns for every slice: it reads no byte outside of it, and the bytes it takes
-- are in the slice.
pub chunk_size_lem : (s : List ℕ) → (r : Parsed ℕ) × (Chunks.chunk_size s ≡ some r) × IsWithin s r
unfolding Chunks.chunk_size isblank isxdigit
chunk_size_lem s = elim (Bool-cases (has_newline s)) [
  | inr unended ↦ (partial, ground arith, tt)
  | inl line ↦
      let (digits, e1, r1) = skip_lem isblank s refl line in
      let (p, e2, r2) = skip_lem isxdigit digits refl r1.line in
      elim (Bool-cases (length p == length digits)) [
        | inl same ↦ (bad, ground (arith, e1, e2), tt)
        | inr moved ↦
            let (q, e3, r3) = skip_lem isblank p refl r2.line in
            let (c, t, first, x) = first_digit digits p e2 (ground (arith, moved)) in
            let (result, done, within) =
              size_line_lem s q c t x (ap has_newline (sym first) ∙ r1.line) (record {
                line = r3.line;
                shorter = omega (arith, r1.shorter, r2.shorter, r3.shorter);
              }) in
            (result, ground (arith, e1, e2, e3, first, done), within)
      ]
]
