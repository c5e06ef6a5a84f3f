-- ===== src/Http/Requests/Answered.antt =====
-- `http_read_request` of src/reactor/http.c returns, and what it answers.
use libreactorng.Prelude.{
  ℕ, zero, suc, ◌^◌, ◌≤◌, ◌<◌, ◌≡◌, refl, subst, Bool, true, false, Option, some, arith, inl, inr,
  lt_or_ge, ◌↔◌,
}
use libreactorng.Prelude.Int.{ℤ, pos, negsuc}
use libreactorng.Prelude.Memory.{Pointer}
use libreactorng.Data
use libreactorng.Data.{Data}
use libreactorng.Data.Laws as DataLaws
use libreactorng.Strings
use libreactorng.Http.Fields
use libreactorng.Http.Fields.{Finds}
use libreactorng.Http.Requests
use libreactorng.Http.Requests.{Parse, Parser, Request, Read, refused, waiting, request}
use libreactorng.Http.Requests.Safe.{IsValue, IsParse, null-IsValue}
use libreactorng.Http.Requests.Keys.{
  encoding_name-IsKey, length_name-IsKey, get_method-IsKey, encoding_text, length_text, get_text,
}
use libreactorng.Http.Requests.Specified.{request_with, no_body, IsFormat, format_lem}

-- The answer `r` to an input by what the parser says, and the memory `m` that the input then has.
pub data IsAnswer (input : Data) (p : Parse) (r : Read) (m : Pointer) : Type 0 where
  no_input : input.iov_len ≡ 0 → r ≡ waiting → IsAnswer input p r m
  parser_refuses : 0 < input.iov_len → p.result ≡ negsuc 0 → r ≡ refused → IsAnswer input p r m
  parser_waits :
      (k : ℕ) → 0 < input.iov_len → p.result ≡ negsuc (suc k) → r ≡ waiting → IsAnswer input p r m
  parser_empty : 0 < input.iov_len → p.result ≡ pos 0 → r ≡ waiting → IsAnswer input p r m
  get_request :
      (n : ℕ)
      → 0 < input.iov_len
      → p.result ≡ pos n
      → 0 < n
      → n ≤ input.iov_len
      → DataLaws.contents p.method ≡ get_text
      → r ≡ request n (request_with p no_body)
      → m ≡ input.iov_base
      → IsAnswer input p r m
  other_request :
      (n : ℕ) (encoding length_value : Data)
      → 0 < input.iov_len
      → p.result ≡ pos n
      → 0 < n
      → n ≤ input.iov_len
      → ¬ (DataLaws.contents p.method ≡ get_text)
      → Finds encoding_text p.fields p.fields_count encoding
      → Finds length_text p.fields p.fields_count length_value
      → IsFormat input n p encoding length_value r m
      → IsAnswer input p r m

abbrev pub Answer : Data → Parse → Option (Read × Pointer) → Type 0
Answer input p o = (r : Read) × (m : Pointer) × (o ≡ some (r, m)) × IsAnswer input p r m

module _ (input : Data) (n : ℕ) (p : Parse) (valid : DataLaws.IsValid input)
    (some_input : 0 < input.iov_len) (result : p.result ≡ pos n) (some_bytes : 0 < n)
    (small : input.iov_len < 2 ^ 63) (parsed : IsParse input p) where
  by_method :
      (get : Data) (b : Bool)
      → Requests.get_method ≡ some get
      → Strings.equal p.method get ≡ some b
      → ((b ≡ true) ↔ (DataLaws.contents p.method ≡ get_text))
      → Answer input p (Requests.read_body input n p)
  unfolding Requests.read_body Requests.read_other Data.null
  by_method get true e same iff = (
    request n (request_with p no_body),
    input.iov_base,
    ground (arith, e, same),
    get_request n some_input result some_bytes (parsed.within n result) (iff.0 refl) refl refl,
  )
  by_method get false e other iff =
      let (k1, e1, v1, t1) = encoding_name-IsKey in
      let (k2, e2, v2, t2) = length_name-IsKey in
      let (a, ea, found_a, va) =
        Fields.lookup_lem IsValue p.fields p.fields_count k1 null-IsValue parsed.counted v1
          parsed.fields in
      let (b, eb, found_b, vb) =
        Fields.lookup_lem IsValue p.fields p.fields_count k2 null-IsValue parsed.counted v2
          parsed.fields in
      let (q, m, done, f) = format_lem input n p valid (parsed.within n result) small a b va vb in
      (
        q,
        m,
        ground (arith, e, other, e1, e2, ea, eb, done),
        other_request n a b some_input result some_bytes (parsed.within n result)
            (λ h. ground (arith, iff.1 h))
            (subst (λ t. Finds t p.fields p.fields_count a) t1 found_a)
            (subst (λ t. Finds t p.fields p.fields_count b) t2 found_b) f,
      )

  body_lem : Answer input p (Requests.read_body input n p)
  unfolding Strings.equal
  body_lem =
      let (k, ek, vk, tk) = get_method-IsKey in
      let (b, eb, iff) = DataLaws.equal_lem p.method k parsed.method vk in
      by_method k b ek eb (subst (λ t. (b ≡ true) ↔ (DataLaws.contents p.method ≡ t)) tk iff)

result_cases :
    (parse : Parser) (input : Data) (fields_count : ℕ) (z : ℤ)
    → (parse input fields_count).result ≡ z
    → 0 < input.iov_len
    → DataLaws.IsValid input
    → input.iov_len < 2 ^ 63
    → IsParse input (parse input fields_count)
    → Answer input (parse input fields_count) (Requests.read_request parse input fields_count)
unfolding Requests.read_request Data.empty
result_cases parse input fields_count (negsuc zero) e given valid small parsed =
    (refused, input.iov_base, ground (arith, e, given), parser_refuses given e refl)
result_cases parse input fields_count (negsuc (suc k)) e given valid small parsed =
    (waiting, input.iov_base, ground (arith, e, given), parser_waits k given e refl)
result_cases parse input fields_count (pos zero) e given valid small parsed =
    (waiting, input.iov_base, ground (arith, e, given), parser_empty given e refl)
result_cases parse input fields_count (pos (suc n)) e given valid small parsed =
    let (r, m, done, a) =
      body_lem input (suc n) (parse input fields_count) valid given e (omega arith) small parsed in
    (r, m, ground (arith, e, given, done), a)

-- With a parser that keeps its promise, on a valid input of fewer than 2 ^ 63 bytes
-- `http_read_request` returns, and its answer is the one of `IsAnswer`: by the method, and by the first
-- fields named `Transfer-Encoding` and `Content-Length`, in letters of either case. It waits for more when there is
-- no input, when the parser does, and when the declared length or a chunk is incomplete; it refuses
-- when the parser does, when both formats or an unknown encoding are declared, and when a chunk is bad.
-- Else it gives the request with its slices: for GET, and with no format, there is no body and `n`
-- bytes are consumed, those of the request line and the fields; with a declared length the body is the
-- slice of that length at the byte `n` of the input, and `n` and the length are consumed, both within
-- the input, unless their sum overflows 2 ^ 64; with chunks the body is their joined data, at the byte
-- `n` of the memory behind the call, and `n` and the bytes of the chunks are consumed, within the input.
pub read_request_lem :
    (parse : Parser) (input : Data) (fields_count : ℕ)
    → DataLaws.IsValid input
    → input.iov_len < 2 ^ 63
    → IsParse input (parse input fields_count)
    → (r : Read) × (m : Pointer) × (Requests.read_request parse input fields_count ≡ some (r, m))
      × IsAnswer input (parse input fields_count) r m
unfolding Requests.read_request Data.empty
read_request_lem parse input fields_count valid small parsed = elim (lt_or_ge 0 input.iov_len) [
  | inl given ↦
      result_cases parse input fields_count (parse input fields_count).result refl given valid small
        parsed
  | inr nothing ↦
      let empty : input.iov_len ≡ 0 = omega (arith, nothing) in
      (waiting, input.iov_base, ground (arith, empty), no_input empty refl)
]
