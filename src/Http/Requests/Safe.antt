-- ===== src/Http/Requests/Safe.antt =====
-- Where the body of a request that `http_read_request` returns lies.
use libreactorng.Prelude.{
  ℕ, ◌+◌, ◌-◌, ◌^◌, ◌≤◌, ◌<◌, ◌≡◌, refl, none, some, length, length-drop, arith,
}
use libreactorng.Prelude.Int.{pos}
use libreactorng.Prelude.Words.{add64}
use libreactorng.Prelude.Memory.{Pointer, bytes}
use libreactorng.Prelude.Numerals.{strtoul, skip_spaces, isspace, digits_value, skip_prefix, digit}
use libreactorng.Data
use libreactorng.Data.{Data}
use libreactorng.Data.Laws as DataLaws
use libreactorng.Strings
use libreactorng.Http.Fields.{AllFields}
use libreactorng.Http.Requests
use libreactorng.Http.Requests.{Parse, Parser, Request, Read, refused, waiting, request}

-- The value of a field: a valid slice, and the number in front of it ends in its object.
pub record IsValue (v : Data) : Type 0 where
  pub valid : DataLaws.IsValid v
  pub number : ℕ
  pub converts : strtoul 10 (bytes v.iov_base) ≡ some number

-- What the parser promises: its slices are valid, there are as many fields as it counts, and a
-- positive result is the size of the request line and the fields.
pub record IsParse (input : Data) (p : Parse) : Type 0 where
  pub method : DataLaws.IsValid p.method
  pub fields : AllFields IsValue p.fields
  pub counted : p.fields_count ≤ length p.fields
  pub within : (n : ℕ) → p.result ≡ pos n → n ≤ input.iov_len

pub null-IsValue : IsValue Strings.null
unfolding Strings.null Data.define strtoul skip_spaces isspace digits_value skip_prefix digit
null-IsValue = record {
  valid = record { inside = omega arith; fits = omega arith };
  number = 0;
  converts = refl;
}

length-advance : (b : Pointer) (n : ℕ) → length (bytes (Data.advance b n)) ≡ length (bytes b) - n
unfolding Data.advance
length-advance none n = omega arith
length-advance (some m) n = length-drop n m

-- A declared length that overflows behind the `n` bytes of the request line and the fields: the body
-- gets that length, and is no slice of the input; fewer than `n` bytes are consumed.
pub read_length_overrun :
    (input : Data) (n : ℕ) (p : Parse) (v : Data)
    → DataLaws.IsValid input
    → n ≤ input.iov_len
    → length (bytes input.iov_base) < 2 ^ 63
    → (value : IsValue v) → 2 ^ 64 ≤ n + value.number
    → value.number < 2 ^ 64
    → (consumed : ℕ) × (q : Request) × (Requests.read_length input n p v
        ≡ some (request consumed q, input.iov_base))
      × (consumed < n)
      × (q.body.iov_len ≡ value.number)
      × ¬ DataLaws.IsValid q.body
unfolding Requests.read_length Data.define Data.size
read_length_overrun input n p v valid within small value over word =
    let size = value.number in
    let e = value.converts in
    let room = length-advance input.iov_base n in
    (
      add64 n size,
      Requests.with_body p (Data.define (Data.advance input.iov_base n) size),
      ground (arith, e, over, word, within),
      omega (arith, over, word, within, small, valid.inside),
      refl,
      λ bad_body. omega (arith, bad_body.inside, room, over, word, within, small, valid.inside),
    )
