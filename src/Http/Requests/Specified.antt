-- ===== src/Http/Requests/Specified.antt =====
-- What `http_read_request` of src/reactor/http.c answers, on every branch.
use libreactorng.Prelude.{
  ℕ, zero, suc, [], ◌+◌, ◌-◌, ◌%◌, ◌^◌, ◌≤◌, ◌<◌, ◌≡◌, ◌∙◌, refl, subst, sym, ap, ap₂, Bool, true,
  false, none, some, List, ◌++◌, take, drop, length, length-take, length-drop, take-append_left,
  take-append-drop, append_assoc, drop-append_left, get_elem?_ext, get_elem?-take, get_elem?-drop,
  arith, inl, inr, lt_or_ge, ◌↔◌,
}
use libreactorng.Prelude.Words.{add64, sub64}
use libreactorng.Prelude.Memory.{Pointer, bytes}
use libreactorng.Prelude.Numerals.{strtoul}
use libreactorng.Data
use libreactorng.Data.{Data}
use libreactorng.Data.Laws as DataLaws
use libreactorng.Http.Chunks
use libreactorng.Http.Chunks.{Parsed, bad, partial, whole}
use libreactorng.Http.Chunks.Joined.{joined, joined_total, IsJoined}
use libreactorng.Http.Chunks.Whole.{dechunk_of, IsDechunked}
use libreactorng.Http.Requests
use libreactorng.Http.Requests.{Parse, Request, Read, refused, waiting, request}
use libreactorng.Http.Requests.Safe.{IsValue}
use libreactorng.Http.Requests.Keys.{chunked_name-IsKey, chunked_text}
use libreactorng.Http.Fields.{SameLetters}

-- The parser's slices with a body.
abbrev pub request_with : Parse → Data → Request
request_with p body = record {
  method = p.method;
  target = p.target;
  body = body;
  fields = p.fields;
  fields_count = p.fields_count;
}

-- No body: `data_null()`.
abbrev pub no_body : Data
no_body = record { iov_base = none; iov_len = 0 }

-- The bytes behind the fields.
abbrev pub behind : Data → ℕ → List ℕ
behind input n = drop n (DataLaws.contents input)

-- The answer by the joined chunks, in an input of `size` bytes: their data is the body, which stands
-- behind the fields.
abbrev pub IsChunked : (size n : ℕ) → Parse → Pointer → Parsed (List ℕ) → Read → Type 0
IsChunked size n p m bad r = r ≡ refused
IsChunked size n p m partial r = r ≡ waiting
IsChunked size n p m (whole k data_bytes) r =
    (n + k ≤ size)
    × (body : Data) × (r ≡ request (n + k) (request_with p body))
    × (body.iov_base ≡ Data.advance m n)
    × (body.iov_len ≡ length data_bytes)
    × (DataLaws.contents body ≡ data_bytes)

-- By the values of the fields `Transfer-Encoding` and `Content-Length`, for a request whose line and
-- fields take `n` bytes: the answer `r`, and the memory `m` that the input then has.
pub data IsFormat (input : Data) (n : ℕ) (p : Parse) (encoding length_value : Data) (r : Read)
    (m : Pointer) : Type 0 where
  bare :
      length_value.iov_len ≡ 0
      → encoding.iov_len ≡ 0
      → r ≡ request n (request_with p no_body)
      → m ≡ input.iov_base
      → IsFormat input n p encoding length_value r m
  both :
      0 < length_value.iov_len
      → 0 < encoding.iov_len
      → r ≡ refused
      → IsFormat input n p encoding length_value r m
  incomplete :
      (size : ℕ)
      → 0 < length_value.iov_len
      → encoding.iov_len ≡ 0
      → strtoul 10 (bytes length_value.iov_base) ≡ some size
      → input.iov_len < (n + size) % 2 ^ 64
      → r ≡ waiting
      → IsFormat input n p encoding length_value r m
  declared :
      (size : ℕ)
      → 0 < length_value.iov_len
      → encoding.iov_len ≡ 0
      → strtoul 10 (bytes length_value.iov_base) ≡ some size
      → n + size ≤ input.iov_len
      → r
        ≡ request
            (n + size)
            (request_with p (record { iov_base = Data.advance input.iov_base n; iov_len = size }))
      → m ≡ input.iov_base
      → IsFormat input n p encoding length_value r m
  overflown :
      (size : ℕ)
      → 0 < length_value.iov_len
      → encoding.iov_len ≡ 0
      → strtoul 10 (bytes length_value.iov_base) ≡ some size
      → 2 ^ 64 ≤ n + size
      → (n + size) % 2 ^ 64 ≤ input.iov_len
      → r
        ≡ request
            ((n + size) % 2 ^ 64)
            (request_with p (record { iov_base = Data.advance input.iov_base n; iov_len = size }))
      → m ≡ input.iov_base
      → IsFormat input n p encoding length_value r m
  unknown :
      length_value.iov_len ≡ 0
      → 0 < encoding.iov_len
      → ¬ SameLetters (DataLaws.contents encoding) chunked_text
      → r ≡ refused
      → IsFormat input n p encoding length_value r m
  chunked :
      (j : Parsed (List ℕ))
      → length_value.iov_len ≡ 0
      → 0 < encoding.iov_len
      → SameLetters (DataLaws.contents encoding) chunked_text
      → joined (suc (length (behind input n))) (behind input n) ≡ some j
      → IsChunked input.iov_len n p m j r
      → IsFormat input n p encoding length_value r m

bytes-advance : (b : Pointer) (n : ℕ) → bytes (Data.advance b n) ≡ drop n (bytes b)
unfolding Data.advance
bytes-advance none n = sym (drop_nothing n)
  where
    drop_nothing : (n : ℕ) → drop {A = ℕ} n [] ≡ []
    drop_nothing zero = refl
    drop_nothing (suc n) = refl
bytes-advance (some m) n = refl

take-drop : (k n : ℕ) (xs : List ℕ) → take (k - n) (drop n xs) ≡ drop n (take k xs)
take-drop k n xs = get_elem?_ext _ _ (λ i. ground (
  arith,
  get_elem?-take (k - n) (drop n xs) i,
  get_elem?-drop n xs i,
  get_elem?-drop n (take k xs) i,
  get_elem?-take k xs (n + i),
))

front_lem :
    (moved m t : List ℕ) → take (length moved) m ≡ moved → take (length moved) (m ++ t) ≡ moved
front_lem moved m t front =
    let l = length moved in
    ap (λ x. take l (x ++ t)) (sym (take-append-drop l m))
    ∙ ap (take l) (append_assoc (take l m) (drop l m) t)
    ∙ take-append_left l (take l m) (drop l m ++ t) (ap length front)
    ∙ front

module _ (input : Data) (n : ℕ) (p : Parse) (valid : DataLaws.IsValid input)
    (within : n ≤ input.iov_len) (small : input.iov_len < 2 ^ 63) where
  offset_lem :
      take (Data.offset input n).iov_len (bytes (Data.offset input n).iov_base) ≡ behind input n
  unfolding Data.offset Data.define
  offset_lem =
      let size : sub64 input.iov_len n ≡ input.iov_len - n = omega (arith, valid.fits, within) in
      ap₂ (λ k xs. take k xs) size (bytes-advance input.iov_base n)
      ∙ take-drop input.iov_len n (bytes input.iov_base)

  -- The memory of the input, with the bytes `t` behind the fields.
  abbrev joined_memory : List ℕ → Pointer
  joined_memory t = some (take n (bytes input.iov_base) ++ t)

  advance-joined_memory : (t : List ℕ) → some t ≡ Data.advance (joined_memory t) n
  unfolding Data.advance
  advance-joined_memory t = ap some (
      sym (
        drop-append_left n (take n (bytes input.iov_base)) t
          (omega (arith, length-take n (bytes input.iov_base), valid.inside, within))))

  abbrev rest_of : List ℕ → List ℕ
  rest_of m = m ++ drop (Data.offset input n).iov_len (bytes (Data.offset input n).iov_base)

  dechunk-IsChunked :
      (s : List ℕ) (j : Parsed (List ℕ)) (m : List ℕ) (r : Parsed ℕ)
      → s ≡ take (Data.offset input n).iov_len (bytes (Data.offset input n).iov_base)
      → s ≡ behind input n
      → Chunks.dechunk s ≡ some (m, r)
      → IsDechunked s m r j
      → IsJoined s j
      → (q : Read) × (w : Pointer) × (Requests.read_chunked input n p ≡ some (q, w))
        × IsChunked input.iov_len n p w j q
  unfolding Requests.read_chunked Data.define
  dechunk-IsChunked s bad m r here it e d w =
      (refused, joined_memory (rest_of m), ground (arith, e, d, here), refl)
  dechunk-IsChunked s partial m r here it e d w =
      (waiting, joined_memory (rest_of m), ground (arith, e, d, here), refl)
  dechunk-IsChunked s (whole k moved) m r here it e (result, front, behind_it, same) w =
      let taken : length (take (length moved) m) ≡ length moved = ap length front in
      let size = length-drop n (DataLaws.contents input) in
      let all = DataLaws.length-contents input valid in
      let total : add64 n k ≡ n + k = omega (arith, w, ap length it, size, all, small, within) in
      let body = Data.define (some (rest_of m)) (length moved) in
      (
        request (n + k) (request_with p body),
        joined_memory (rest_of m),
        ground (arith, e, result, here, total),
        (
          omega (arith, w, ap length it, size, all, within),
          body,
          refl,
          advance-joined_memory (rest_of m),
          refl,
          front_lem moved m
              (drop (Data.offset input n).iov_len (bytes (Data.offset input n).iov_base)) front,
        ),
      )

  chunked_lem :
      (encoding length_value : Data)
      → length_value.iov_len ≡ 0
      → 0 < encoding.iov_len
      → SameLetters (DataLaws.contents encoding) chunked_text
      → (q : Read) × (w : Pointer) × (Requests.read_chunked input n p ≡ some (q, w))
        × IsFormat input n p encoding length_value q w
  chunked_lem encoding length_value missing coded same =
      let s = behind input n in
      let all = DataLaws.length-contents input valid in
      let less : length s < 2 ^ 63 =
        omega (arith, all, length-drop n (DataLaws.contents input), small) in
      let (j, e, w) = joined_total (suc (length s)) s (omega arith) less in
      let (m, r, done, is) = dechunk_of s j less e in
      let (q, u, read, answer) = dechunk-IsChunked s j m r (sym offset_lem) refl done is w in
      (q, u, read, chunked j missing coded same e answer)

  length_lem :
      (encoding v : Data)
      → IsValue v
      → 0 < v.iov_len
      → encoding.iov_len ≡ 0
      → (q : Read) × (w : Pointer) × (Requests.read_length input n p v ≡ some (q, w))
        × IsFormat input n p encoding v q w
  unfolding Requests.read_length Data.size Data.define
  length_lem encoding v value given one =
      let size = value.number in
      let e = value.converts in
      elim (lt_or_ge input.iov_len (add64 n size)) [
        | inl less ↦ (
          waiting,
          input.iov_base,
          ground (arith, e, less),
          incomplete size given one e less refl,
        )
        | inr fits ↦ elim (lt_or_ge (n + size) (2 ^ 64)) [
          | inl fine ↦
              let total : add64 n size ≡ n + size = omega (arith, fine) in
              (
                request (n + size)
                    (request_with p (Data.define (Data.advance input.iov_base n) size)),
                input.iov_base,
                ground (arith, e, fits, total),
                declared size given one e (omega (arith, fits, total)) refl refl,
              )
          | inr over ↦ (
            request (add64 n size)
                (request_with p (Data.define (Data.advance input.iov_base n) size)),
            input.iov_base,
            ground (arith, e, fits),
            overflown size given one e over fits refl refl,
          )
        ]
      ]

  by_name :
      (encoding v key : Data) (b : Bool)
      → v.iov_len ≡ 0
      → 0 < encoding.iov_len
      → Requests.chunked_name ≡ some key
      → Data.equal_case encoding key ≡ some b
      → ((b ≡ true) ↔ SameLetters (DataLaws.contents encoding) chunked_text)
      → (q : Read) × (w : Pointer) × (Requests.read_format input n p encoding v ≡ some (q, w))
        × IsFormat input n p encoding v q w
  unfolding Requests.read_format Data.empty
  by_name encoding v key true missing coded name same iff =
      let (q, w, e, f) = chunked_lem encoding v missing coded (iff.0 refl) in
      (q, w, ground (arith, missing, coded, name, same, e), f)
  by_name encoding v key false missing coded name other iff = (
    refused,
    input.iov_base,
    ground (arith, missing, coded, name, other),
    unknown missing coded (λ h. ground (arith, iff.1 h)) refl,
  )

  pub format_lem :
      (encoding v : Data)
      → IsValue encoding
      → IsValue v
      → (q : Read) × (w : Pointer) × (Requests.read_format input n p encoding v ≡ some (q, w))
        × IsFormat input n p encoding v q w
  unfolding Requests.read_format Data.null Data.empty
  format_lem encoding v ve vl =
      let (k, ek, vk, tk) = chunked_name-IsKey in
      let (b, eb, iff) = DataLaws.equal_case_lem encoding k ve.valid vk in
      elim (lt_or_ge 0 v.iov_len) [
        | inl given ↦ elim (lt_or_ge 0 encoding.iov_len) [
          | inl coded ↦
              (refused, input.iov_base, ground (arith, given, coded), both given coded refl)
          | inr bare_encoding ↦
              let one : encoding.iov_len ≡ 0 = omega (arith, bare_encoding) in
              let (q, w, e, f) = length_lem encoding v vl given one in
              (q, w, ground (arith, given, one, e), f)
        ]
        | inr bare_length ↦
            let missing : v.iov_len ≡ 0 = omega (arith, bare_length) in
            elim (lt_or_ge 0 encoding.iov_len) [
              | inl coded ↦
                  by_name encoding v k b missing coded ek eb
                    (subst (λ t. (b ≡ true) ↔ SameLetters (DataLaws.contents encoding) t) tk iff)
              | inr bare_encoding ↦
                  let one : encoding.iov_len ≡ 0 = omega (arith, bare_encoding) in
                  (
                    request n (request_with p no_body),
                    input.iov_base,
                    ground (arith, missing, one),
                    bare missing one refl refl,
                  )
            ]
      ]
