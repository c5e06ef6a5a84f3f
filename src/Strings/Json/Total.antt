-- ===== src/Strings/Json/Total.antt =====
-- `string_utf8_encode` ends on every sequence of bytes, well-formed or not; with `ascii` it writes
-- bytes from 0x20 to 0x7F only.
use libreactorng.Prelude.{
  ℕ, zero, suc, ◌/◌, ◌%◌, ◌^◌, ◌≤◌, ◌<◌, ◌≡◌, refl, inl, inr, Bool, true, false, some, List, [],
  ◌∷◌, ◌++◌, ◌==◌, ltb, leb, length, arith, Bool-cases, if◌then◌else◌, ◌||◌, ◌&&◌,
}
use libreactorng.Prelude.Ranges.{all_from, all_from_lem}
use libreactorng.Strings.Utf8
use libreactorng.Strings.Utf8.Escapes.{escape, hex, put_encoded_basic_lem}
use libreactorng.Strings.Json
use libreactorng.Strings.Json.{regular}

-- `string_utf8_get` inside its text always returns, at or behind the byte it stopped at.
get_loop_total :
    (left : ℕ) (from : List ℕ) (state code : ℕ)
    → left ≤ length from
    → (c : ℕ) × (q : List ℕ) × (Utf8.get_loop left from state code ≡ some (c, q))
      × (length q ≤ length from)
unfolding Utf8.get_loop
get_loop_total zero from state code h = (code, from, refl, omega arith)
get_loop_total (suc left) [] state code h = absurd (omega arith)
get_loop_total (suc left) (byte ∷ from) state code h =
    let next = Utf8.decode_code state code byte in
    let (c, q, e, shorter) = get_loop_total left from next.0 next.1 (omega arith) in
    elim (Bool-cases (next.0 == 0)) [
      | inl done ↦ (next.1, from, rw done, omega arith)
      | inr more ↦ elim (Bool-cases (next.0 == 12 || left == 0)) [
        | inl bad ↦ (Utf8.replacement, from, rw (more, bad), omega arith)
        | inr good ↦ (c, q, rw (more, good) e, omega arith)
      ]
    ]

-- It takes at least one byte.
get_total :
    (b : ℕ) (p : List ℕ)
    → (c : ℕ) × (q : List ℕ) × (Utf8.get (suc (length p)) (b ∷ p) ≡ some (c, q))
      × (length q ≤ length p)
unfolding Utf8.get Utf8.get_loop
get_total b p =
    let next = Utf8.decode_code 0 0 b in
    let (c, q, e, shorter) = get_loop_total (length p) p next.0 next.1 (omega arith) in
    elim (Bool-cases (next.0 == 0)) [
      | inl done ↦ (next.1, p, rw done, omega arith)
      | inr more ↦ elim (Bool-cases (next.0 == 12 || length p == 0)) [
        | inl bad ↦ (Utf8.replacement, p, rw (more, bad), omega arith)
        | inr good ↦ (c, q, rw (more, good) e, shorter)
      ]
    ]

-- Every byte is from 0x20 to 0x7F; the control character DEL, 0x7F, is among them.
abbrev pub IsPlain : List ℕ → Type 0
IsPlain [] = Unit {0}
IsPlain (b ∷ bs) = ((0x20 ≤ b) × (b < 0x80)) × IsPlain bs

append-IsPlain : (xs ys : List ℕ) → IsPlain xs → IsPlain ys → IsPlain (xs ++ ys)
append-IsPlain [] ys p q = q
append-IsPlain (x ∷ xs) ys p q = (p.0, append-IsPlain xs ys p.1 q)

regular_bounds : (c : ℕ) → regular c ≡ true → (0x20 ≤ c) × (c < 0x80)
unfolding Json.regular
regular_bounds c h = ground arith

run_lem : (p : List ℕ) → IsPlain (Json.run p).0 × (length (Json.run p).1 ≤ length p)
unfolding Json.run
run_lem [] = (tt, omega arith)
run_lem (c ∷ p) = elim (Bool-cases (regular c)) [
  | inl r ↦ rw r ((regular_bounds c r, (run_lem p).0), omega (arith, (run_lem p).1))
  | inr r ↦ rw r (tt, omega arith)
]

hex_seven_bit : all_from 0 16 (λ d. leb 0x20 (hex d) && ltb (hex d) 0x80) ≡ true
unfolding all_from hex Utf8.hex_map
hex_seven_bit = refl

hex_bounds : (d : ℕ) → d < 16 → (0x20 ≤ hex d) × (hex d < 0x80)
hex_bounds d h =
    ground (arith, all_from_lem 0 16 (λ d. leb 0x20 (hex d) && ltb (hex d) 0x80) d hex_seven_bit)

escape-IsPlain : (w : ℕ) → w < 2 ^ 16 → IsPlain (escape w)
unfolding escape
escape-IsPlain w h = (
  omega arith,
  (
    omega arith,
    (
      hex_bounds (w / 4096) (omega arith),
      (
        hex_bounds (w / 256 % 16) (omega arith),
        (hex_bounds (w / 16 % 16) (omega arith), (hex_bounds (w % 16) (omega arith), tt)),
      ),
    ),
  ),
)

basic-IsPlain :
    (buffer : List ℕ) (w : ℕ)
    → w < 2 ^ 16
    → IsPlain buffer
    → IsPlain (Utf8.put_encoded_basic buffer w)
basic-IsPlain buffer w h p =
    rw (put_encoded_basic_lem buffer w h) (append-IsPlain buffer (escape w) p (escape-IsPlain w h))

put_encoded-IsPlain :
    (buffer : List ℕ) (code : ℕ) → IsPlain buffer → IsPlain (Utf8.put_encoded buffer code)
unfolding Utf8.put_encoded
put_encoded-IsPlain buffer code p = elim (Bool-cases (leb 0x10000 code)) [
  | inl two ↦ rw two (basic-IsPlain _ _ (omega arith) (basic-IsPlain buffer _ (omega arith) p))
  | inr one ↦ rw one (basic-IsPlain buffer _ (omega arith) p)
]

either-IsPlain :
    (b : Bool) (xs ys : List ℕ) → IsPlain xs → IsPlain ys → IsPlain (if b then xs else ys)
either-IsPlain true xs ys p q = p
either-IsPlain false xs ys p q = q

escaped-IsPlain :
    (buffer : List ℕ) (c : ℕ) → c < 0x80 → IsPlain buffer → IsPlain (Json.escaped buffer c)
unfolding Json.escaped
escaped-IsPlain buffer c h p = either-IsPlain (c == b'"') _ _ (pair b'"' (omega arith)) (
    either-IsPlain (c == b'\\') _ _ (pair b'\\' (omega arith)) (
      either-IsPlain (c == 12) _ _ (pair b'f' (omega arith)) (
        either-IsPlain (c == 10) _ _ (pair b'n' (omega arith)) (
          either-IsPlain (c == 13) _ _ (pair b'r' (omega arith)) (
            either-IsPlain (c == 9) _ _ (pair b't' (omega arith))
              (basic-IsPlain buffer c (omega arith) p))))))
  where
    pair : (e : ℕ) → (0x20 ≤ e) × (e < 0x80) → IsPlain (buffer ++ (b'\\' ∷ e ∷ []))
    pair e h = append-IsPlain buffer (b'\\' ∷ e ∷ []) p (omega arith, (h, tt))

-- One round of the encoder returns, takes at least the byte, and with `ascii` keeps
-- a buffer of bytes from 0x20 to 0x7F so.
round_total :
    (ascii : Bool) (buffer : List ℕ) (c : ℕ) (p : List ℕ)
    → (b : List ℕ) × (q : List ℕ) × (Json.encode_round ascii buffer c p ≡ some (b, q))
      × (length q ≤ length p)
      × (ascii ≡ true → IsPlain buffer → IsPlain b)
unfolding Json.encode_round
round_total ascii buffer c p = elim (Bool-cases (regular c)) [
  | inl r ↦ (
    buffer ++ (c ∷ (Json.run p).0),
    (Json.run p).1,
    rw r,
    (run_lem p).1,
    λ _ h. append-IsPlain buffer (c ∷ (Json.run p).0) h (regular_bounds c r, (run_lem p).0),
  )
  | inr n ↦ elim (Bool-cases (leb 0x80 c)) [
    | inr low ↦ (
      Json.escaped buffer c,
      p,
      rw (n, low),
      omega arith,
      λ _ h. escaped-IsPlain buffer c (ground arith) h,
    )
    | inl high ↦
        let (code, q, e, shorter) = get_total c p in
        (
          if ascii then Utf8.put_encoded buffer code else Utf8.put buffer code,
          q,
          rw (n, high, e),
          shorter,
          λ is h. rw is (put_encoded-IsPlain buffer code h),
        )
  ]
]

-- With a round for each byte and one more the encoder ends on every sequence of bytes; with `ascii`,
-- behind a buffer of bytes from 0x20 to 0x7F, it writes bytes from 0x20 to 0x7F only. DEL, 0x7F, is
-- among them: it is written as it is.
pub encode_total :
    (fuel : ℕ) (ascii : Bool) (buffer p : List ℕ)
    → length p < fuel
    → (out : List ℕ) × (Json.encode fuel ascii buffer p ≡ some out)
      × (ascii ≡ true → IsPlain buffer → IsPlain out)
unfolding Json.encode
encode_total zero ascii buffer p h = absurd (omega arith)
encode_total (suc fuel) ascii buffer [] h = (buffer, refl, λ _ h. h)
encode_total (suc fuel) ascii buffer (c ∷ p) h =
    let (b, q, e, shorter, keeps) = round_total ascii buffer c p in
    let (out, e', keeps') = encode_total fuel ascii b q (omega (arith, shorter)) in
    (out, rw e e', λ is h. keeps' is (keeps is h))
