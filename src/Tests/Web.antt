-- ===== src/Tests/Web.antt =====
-- http.c at a chunked body, a request and a response.
use libreactorng.Prelude.{
  ℕ, ◌+◌, ◌-◌, ◌^◌, ◌≤◌, ◌<◌, ◌≡◌, refl, some, List, [], ◌∷◌, ◌++◌, arith, drop, length, replicate,
}
use libreactorng.Prelude.Int.{pos}
use libreactorng.Prelude.Memory.{Pointer}
use libreactorng.Prelude.Numerals.{strtoul, skip_spaces, isspace, digits_value, skip_prefix, digit}
use libreactorng.Data.{Data}
use libreactorng.Data.Laws as DataLaws
use libreactorng.Buffer.{Buffer}
use libreactorng.Buffer.Valid.{IsValid, contents}
use libreactorng.Http.Fields.{Field}
use libreactorng.Http.Numbers
use libreactorng.Http.Numbers.Digits.{decimal}
use libreactorng.Http.Numbers.Lengths.{u32_len_lem}
use libreactorng.Http.Numbers.Printed.{u32_sprint_lem}
use libreactorng.Http.Chunks
use libreactorng.Http.Chunks.{Parsed}
use libreactorng.Http.Chunks.Joined.{joined}
use libreactorng.Http.Chunks.Whole.{dechunk_lem, IsDechunked}
use libreactorng.Http.Requests
use libreactorng.Http.Requests.{Parse, Parser, Request, Read, request}
use libreactorng.Http.Requests.Safe.{IsValue, IsParse, read_length_overrun}
use libreactorng.Http.Requests.Answered.{IsAnswer, read_request_lem}
use libreactorng.Http.Responses
use libreactorng.Http.Responses.Pushes.{field_text}
use libreactorng.Http.Responses.Texts.{fields_text, response_text}
use libreactorng.Http.Responses.Sent.{IsCall, response, write_response_lem}
use libreactorng.Tests.{plain}

-- "3\r\nabc\r\n0\r\n\r\nX"
abbrev chunks : List ℕ
chunks = b'3' ∷ 13 ∷ 10 ∷ b'a' ∷ b'b' ∷ b'c' ∷ 13 ∷ 10 ∷ b'0' ∷ 13 ∷ 10 ∷ 13 ∷ 10 ∷ b'X' ∷ []

dechunk_lem_example :
    (j : Parsed (List ℕ)) × (joined 15 chunks ≡ some j)
    × (m : List ℕ) × (r : Parsed ℕ) × (Chunks.dechunk chunks ≡ some (m, r))
    × IsDechunked chunks m r j
dechunk_lem_example = dechunk_lem chunks (omega arith)

u32_len_lem_example : Numbers.u32_len 1234 ≡ some (length (decimal 10 1234))
u32_len_lem_example = u32_len_lem 1234 (omega arith)

u32_sprint_lem_example :
    Numbers.u32_sprint 2 123 (replicate 4 0, b'x' ∷ [])
    ≡ some (drop (length (decimal 4 123)) (replicate 4 0), decimal 4 123 ++ (b'x' ∷ []))
unfolding decimal
u32_sprint_lem_example =
    u32_sprint_lem 2 4 123 (replicate 4 0) (b'x' ∷ []) refl (omega arith) (omega arith)
      (omega arith)

abbrev slice : List ℕ → Data
slice text = record { iov_base = some text; iov_len = length text }

-- "POST / HTTP/1.1\r\nContent-Length: 2\r\n\r\nhi" begins like this.
abbrev post : Data
post = slice (b'P' ∷ b'O' ∷ b'S' ∷ b'T' ∷ b' ' ∷ b'/' ∷ b'h' ∷ b'i' ∷ [])

-- "Content-Length" with a value behind which the text goes on.
abbrev length_field : Field
length_field = record {
  name = slice (
      b'C' ∷ b'o' ∷ b'n' ∷ b't' ∷ b'e' ∷ b'n' ∷ b't' ∷ b'-' ∷ b'L' ∷ b'e' ∷ b'n' ∷ b'g' ∷ b't'
      ∷ b'h' ∷ []);
  value = record { iov_base = some (b'2' ∷ 13 ∷ 10 ∷ []); iov_len = 1 };
}

two-IsValue : IsValue length_field.value
unfolding strtoul skip_spaces isspace digits_value skip_prefix digit
two-IsValue = record { valid = omega arith; number = 2; converts = refl }

-- The parser's answer: the first 6 bytes are the request line and the fields.
abbrev parsed : Parse
parsed = record {
  result = pos 6;
  method = slice (b'P' ∷ b'O' ∷ b'S' ∷ b'T' ∷ []);
  target = slice (b'/' ∷ []);
  fields = length_field ∷ [];
  fields_count = 1;
}

within_six : (n : ℕ) → pos 6 ≡ pos n → n ≤ 8
within_six n e = ground (arith, e)

parsed-IsParse : IsParse post parsed
parsed-IsParse = record {
  method = omega arith;
  fields = (omega arith, two-IsValue, tt);
  counted = omega arith;
  within = within_six;
}

read_request_lem_example :
    (r : Read) × (m : Pointer) × (Requests.read_request (λ input count. parsed) post 16
      ≡ some (r, m))
    × IsAnswer post parsed r m
read_request_lem_example =
    read_request_lem (λ input count. parsed) post 16 (omega arith) (omega arith) parsed-IsParse

-- 2 ^ 64 - 1
abbrev huge : Data
huge = record {
  iov_base = some (
      b'1' ∷ b'8' ∷ b'4' ∷ b'4' ∷ b'6' ∷ b'7' ∷ b'4' ∷ b'4' ∷ b'0' ∷ b'7' ∷ b'3' ∷ b'7' ∷ b'0'
      ∷ b'9' ∷ b'5' ∷ b'5' ∷ b'1' ∷ b'6' ∷ b'1' ∷ b'5' ∷ 13 ∷ []);
  iov_len = 20;
}

huge-IsValue : IsValue huge
unfolding strtoul skip_spaces isspace digits_value skip_prefix digit
huge-IsValue = record { valid = omega arith; number = 2 ^ 64 - 1; converts = refl }

read_length_overrun_example :
    (consumed : ℕ) × (q : Request) × (Requests.read_length post 6 parsed huge
      ≡ some (request consumed q, post.iov_base))
    × (consumed < 6)
    × (q.body.iov_len ≡ 2 ^ 64 - 1)
    × ¬ DataLaws.IsValid q.body
unfolding huge-IsValue
read_length_overrun_example =
    read_length_overrun post 6 parsed huge (omega arith) (omega arith) (omega arith) huge-IsValue
      (omega arith) (omega arith)

abbrev waiting_buffer : Buffer
waiting_buffer = record {
  region = record { iov_base = some (b'x' ∷ b'y' ∷ []); iov_len = 2 };
  capacity = 2;
}

abbrev date : Data
date = record { iov_base = some (replicate 29 b'0'); iov_len = 29 }

abbrev hello : Data
hello = slice (b'h' ∷ b'i' ∷ [])

hello-IsCall :
    IsCall (slice (b'2' ∷ b'0' ∷ b'0' ∷ [])) date (slice (b't' ∷ [])) hello (length_field ∷ [])
hello-IsCall = record {
  valid_status = omega arith;
  valid_date = omega arith;
  valid_type = omega arith;
  valid_body = omega arith;
  valid_fields = (omega arith, omega arith, tt);
  date_length = refl;
  small_body = omega arith;
}

small_response :
    2
      + length (
          response
            (slice (b'2' ∷ b'0' ∷ b'0' ∷ []))
            date
            (slice (b't' ∷ []))
            hello
            (length_field ∷ []))
    < 2 ^ 63
unfolding response response_text field_text fields_text decimal
small_response = omega arith

write_response_lem_example :
    (b' : Buffer) × (Responses.write_response plain
        (replicate 16 0)
        waiting_buffer
        (slice (b'2' ∷ b'0' ∷ b'0' ∷ []))
        date
        (slice (b't' ∷ []))
        hello
        (length_field ∷ [])
      ≡ some b')
    × IsValid b'
    × (contents b'
        ≡ contents waiting_buffer
          ++ response
              (slice (b'2' ∷ b'0' ∷ b'0' ∷ []))
              date
              (slice (b't' ∷ []))
              hello
              (length_field ∷ []))
write_response_lem_example =
    write_response_lem plain (replicate 16 0) waiting_buffer (slice (b'2' ∷ b'0' ∷ b'0' ∷ [])) date
      (slice (b't' ∷ [])) hello (length_field ∷ []) refl (omega arith) hello-IsCall small_response
