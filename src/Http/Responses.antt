-- ===== src/Http/Responses.antt =====
-- `http_write_response` of src/reactor/http.c: a response at the end of the stream's buffer
-- `output_waiting`. A pointer into the buffer is its block and an offset; a byte written behind the
-- block is a fault.
pub mod Pushes
pub mod Texts
pub mod Lengths
pub mod Sent
use mathlib.Core.List.{reverse}
use libreactorng.Prelude.{
  ℕ, zero, suc, ◌+◌, ◌-◌, ◌*◌, ◌%◌, ◌^◌, Bool, true, false, Option, none, some, List, [], ◌∷◌, ◌++◌,
  ◌==◌, if◌then◌else◌, ◌>>=◌, length, drop,
}
use libreactorng.Prelude.Words.{add64}
use libreactorng.Prelude.Memory.{Pointer, bytes, read, write, Allocator}
use libreactorng.Data
use libreactorng.Data.{Data}
use libreactorng.Strings
use libreactorng.Buffer
use libreactorng.Buffer.{Buffer}
use libreactorng.Http.Fields.{Field}
use libreactorng.Http.Numbers

pub record Place : Type 0 where
  pub block : List ℕ
  pub at : ℕ

unfoldable pub move : Place → ℕ → Place
move p size = record p { at = p.at + size }

unfoldable pub push_data : Place → Data → Option Place
unfolding move
push_data p d = do
  bs ← read (bytes d.iov_base) 0 d.iov_len
  m ← write p.block p.at bs
  some (move (record p { block = m }) d.iov_len)

unfoldable pub push_byte : Place → ℕ → Option Place
unfolding move
push_byte p byte = do m ← write p.block p.at (byte ∷ []); some (move (record p { block = m }) 1)

unfoldable pub push_field : Place → Field → Option Place
push_field p f = do
  p1 ← push_data p f.name
  p2 ← push_byte p1 b':'
  p3 ← push_byte p2 b' '
  p4 ← push_data p3 f.value
  p5 ← push_byte p4 13
  push_byte p5 10

-- `string(..)` of a literal, pushed.
unfoldable pub push_text : Place → List ℕ → Option Place
push_text p text = Strings.string (text ++ (0 ∷ [])) >>= λ d. push_data p d

-- A field of two literals, or of a literal and a slice.
unfoldable pub push_named : Place → List ℕ → Data → Option Place
push_named p name value =
    Strings.string (name ++ (0 ∷ [])) >>= λ d. push_field p (record { name = d; value = value })

-- "HTTP/1.1 "
abbrev pub version_text : List ℕ
version_text = b'H' ∷ b'T' ∷ b'T' ∷ b'P' ∷ b'/' ∷ b'1' ∷ b'.' ∷ b'1' ∷ b' ' ∷ []

abbrev pub line_text : List ℕ
line_text = 13 ∷ 10 ∷ []

-- "Server", "*", "Date", "Content-Type", "Content-Length"
abbrev pub server_text : List ℕ
server_text = b'S' ∷ b'e' ∷ b'r' ∷ b'v' ∷ b'e' ∷ b'r' ∷ []

abbrev pub star_text : List ℕ
star_text = b'*' ∷ []

abbrev pub date_text : List ℕ
date_text = b'D' ∷ b'a' ∷ b't' ∷ b'e' ∷ []

abbrev pub type_text : List ℕ
type_text = b'C' ∷ b'o' ∷ b'n' ∷ b't' ∷ b'e' ∷ b'n' ∷ b't' ∷ b'-' ∷ b'T' ∷ b'y' ∷ b'p' ∷ b'e' ∷ []

abbrev pub length_text : List ℕ
length_text =
    b'C' ∷ b'o' ∷ b'n' ∷ b't' ∷ b'e' ∷ b'n' ∷ b't' ∷ b'-' ∷ b'L' ∷ b'e' ∷ b'n' ∷ b'g' ∷ b't' ∷ b'h'
    ∷ []

-- The digits of the size of the body, taken as a `uint32_t`, in `char length_storage[16]`, of which
-- `storage` holds what was there.
unfoldable pub length_data : (storage : List ℕ) → Data → Option Data
length_data storage body = do
  let n = Data.size body % 2 ^ 32
  size ← Numbers.u32_len n
  front ← read storage 0 size
  string ← Numbers.u32_sprint 16 n (reverse front, drop size storage)
  some (Data.define (some (reverse string.0 ++ string.1)) size)

-- The sizes of the parts of a response without fields of the caller.
unfoldable pub basic_size : (status type body length : Data) → ℕ
basic_size status type body length =
    add64
      (add64
        (add64
          (add64
            (add64 (add64 (add64 (add64 (add64 (add64 9 (Strings.size status)) 2) 11) 37) 16)
              (Strings.size type))
            18)
          (Strings.size length))
        2)
      (Data.size body)

-- `size += ...` for every field.
unfoldable pub fields_size : List Field → ℕ → ℕ
fields_size [] size = size
fields_size (f ∷ fields) size =
    fields_size fields
      (add64 (add64 (add64 (add64 size (Strings.size f.name)) 2) (Strings.size f.value)) 2)

unfoldable pub push_fields : Place → List Field → Option Place
push_fields p [] = some p
push_fields p (f ∷ fields) = push_field p f >>= λ p1. push_fields p1 fields

-- The statements behind `stream_allocate`.
unfoldable pub push_response :
    Place → (status date type length : Data) → List Field → (body : Data) → Option Place
push_response p status date type length fields body = do
  star ← Strings.string (star_text ++ (0 ∷ []))
  p1 ← push_text p version_text
  p2 ← push_data p1 status
  p3 ← push_text p2 line_text
  p4 ← push_named p3 server_text star
  p5 ← push_named p4 date_text date
  p6 ← push_named p5 type_text type
  p7 ← push_named p6 length_text length
  p8 ← push_fields p7 fields
  p9 ← push_text p8 line_text
  push_data p9 body

module _ (heap : Allocator) (storage : List ℕ) where
  -- The response at the end of the buffer, in a place of `size` bytes.
  unfoldable pub write_allocated :
      Buffer → ℕ → (status date type length : Data) → List Field → (body : Data) → Option Buffer
  write_allocated waiting size status date type length fields body = do
    let r = Buffer.allocate heap waiting size
    p ←
        push_response (record { block = bytes (Buffer.base r.0); at = Buffer.size waiting }) status
          date type length fields body
    some (Buffer.over r.0 p.block)

  unfoldable pub write_response_basic : Buffer → (status date type body : Data) → Option Buffer
  write_response_basic waiting status date type body = do
    length ← length_data storage body
    write_allocated waiting (basic_size status type body length) status date type length [] body

  unfoldable pub write_response_extended :
      Buffer → (status date type body : Data) → List Field → Option Buffer
  write_response_extended waiting status date type body fields = do
    length ← length_data storage body
    write_allocated waiting (fields_size fields (basic_size status type body length)) status date
        type length fields body

  unfoldable pub write_response :
      Buffer → (status date type body : Data) → List Field → Option Buffer
  write_response waiting status date type body [] =
      write_response_basic waiting status date type body
  write_response waiting status date type body (f ∷ fields) =
      write_response_extended waiting status date type body (f ∷ fields)
