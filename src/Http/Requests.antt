-- ===== src/Http/Requests.antt =====
-- `http_read_request` of src/reactor/http.c. The parser `phr_parse_request` is a parameter.
pub mod Answered
pub mod Keys
pub mod Safe
pub mod Specified
use libreactorng.Prelude.{
  ℕ, zero, suc, ◌+◌, ◌^◌, Bool, true, false, not, Option, none, some, List, [], ◌∷◌, ◌++◌, ◌==◌,
  ltb, if◌then◌else◌, ◌>>=◌, take, drop,
}
use libreactorng.Prelude.Int.{ℤ, pos, negsuc}
use libreactorng.Prelude.Words.{add64}
use libreactorng.Prelude.Memory.{Pointer, bytes}
use libreactorng.Prelude.Numerals.{strtoul}
use libreactorng.Data
use libreactorng.Data.{Data}
use libreactorng.Strings
use libreactorng.Http.Fields
use libreactorng.Http.Fields.{Field}
use libreactorng.Http.Chunks
use libreactorng.Http.Chunks.{Parsed, bad, partial, whole}

-- What `phr_parse_request` returns and stores for an input and room for a number of fields.
pub record Parse : Type 0 where
  pub result : ℤ
  pub method : Data
  pub target : Data
  pub fields : List Field
  pub fields_count : ℕ

abbrev pub Parser : Type 0
Parser = Data → ℕ → Parse

pub record Request : Type 0 where
  pub method : Data
  pub target : Data
  pub body : Data
  pub fields : List Field
  pub fields_count : ℕ

-- -1, 0, and 1 with the request; `stream_consume` takes the bytes of the request from the stream.
pub data Read : Type 0 where
  refused : Read
  waiting : Read
  request : (consumed : ℕ) → Request → Read

abbrev pub get_method : Option Data
get_method = Strings.string (b'G' ∷ b'E' ∷ b'T' ∷ 0 ∷ [])

-- "Transfer-Encoding"
abbrev pub encoding_name : Option Data
encoding_name = Strings.string (
    b'T' ∷ b'r' ∷ b'a' ∷ b'n' ∷ b's' ∷ b'f' ∷ b'e' ∷ b'r' ∷ b'-' ∷ b'E' ∷ b'n' ∷ b'c' ∷ b'o' ∷ b'd'
    ∷ b'i' ∷ b'n' ∷ b'g' ∷ 0 ∷ [])

-- "Content-Length"
abbrev pub length_name : Option Data
length_name = Strings.string (
    b'C' ∷ b'o' ∷ b'n' ∷ b't' ∷ b'e' ∷ b'n' ∷ b't' ∷ b'-' ∷ b'L' ∷ b'e' ∷ b'n' ∷ b'g' ∷ b't' ∷ b'h'
    ∷ 0 ∷ [])

-- "Chunked"
abbrev pub chunked_name : Option Data
chunked_name = Data.string (b'C' ∷ b'h' ∷ b'u' ∷ b'n' ∷ b'k' ∷ b'e' ∷ b'd' ∷ 0 ∷ [])

abbrev pub with_body : Parse → Data → Request
with_body p body = record {
  method = p.method;
  target = p.target;
  body = body;
  fields = p.fields;
  fields_count = p.fields_count;
}

-- The content-length format: `size` is the declared length.
unfoldable pub read_length : Data → ℕ → Parse → (length : Data) → Option (Read × Pointer)
read_length input n p length = do
  size ← strtoul 10 (bytes length.iov_base)
  if ltb (Data.size input) (add64 n size)
      then some (waiting, input.iov_base)
      else some (
        request (add64 n size) (with_body p (Data.define (Data.advance input.iov_base n) size)),
        input.iov_base,
      )

-- The chunked format: the chunks are joined in the memory of the input.
unfoldable pub read_chunked : Data → ℕ → Parse → Option (Read × Pointer)
read_chunked input n p = do
  let chunks = Data.offset input n
  let memory = bytes chunks.iov_base
  r ← Chunks.dechunk (take chunks.iov_len memory)
  let after = r.0 ++ drop chunks.iov_len memory
  let whole_memory = some (take n (bytes input.iov_base) ++ after)
  some (elim r.1 [
    | bad ↦ (refused, whole_memory)
    | partial ↦ (waiting, whole_memory)
    | whole taken size ↦
        (request (add64 n taken) (with_body p (Data.define (some after) size)), whole_memory)
  ])

-- The two formats of a body, by the values of the fields.
unfoldable pub read_format : Data → ℕ → Parse → (encoding length : Data) → Option (Read × Pointer)
read_format input n p encoding length =
    if not (Data.empty length)
    then (if not (Data.empty encoding)
        then some (refused, input.iov_base)
        else read_length input n p length)
    else if not (Data.empty encoding)
    then (do
      chunked ← chunked_name
      known ← Data.equal_case encoding chunked
      if not known then some (refused, input.iov_base) else read_chunked input n p)
    else some (request n (with_body p Data.null), input.iov_base)

-- Behind the fields of a request with another method than GET.
unfoldable pub read_other : Data → ℕ → Parse → Option (Read × Pointer)
read_other input n p = do
  encoding_key ← encoding_name
  encoding ← Fields.lookup p.fields p.fields_count encoding_key
  length_key ← length_name
  length ← Fields.lookup p.fields p.fields_count length_key
  read_format input n p encoding length

-- Behind a request line and fields of `n` bytes.
unfoldable pub read_body : Data → ℕ → Parse → Option (Read × Pointer)
read_body input n p = do
  get ← get_method
  is_get ← Strings.equal p.method get
  if is_get then some (request n (with_body p Data.null), input.iov_base) else read_other input n p

-- What the function returns, and the memory of the input behind the call.
unfoldable pub read_request : Parser → Data → (fields_count : ℕ) → Option (Read × Pointer)
read_request parse input fields_count =
    let p = parse input fields_count in
    let body = read_body input in
    if Data.empty input then some (waiting, input.iov_base) else elim p.result [
      | pos n ↦ if n == 0 then some (waiting, input.iov_base) else body n p
      | negsuc k ↦ if k == 0 then some (refused, input.iov_base) else some (waiting, input.iov_base)
    ]
