-- ===== src/Http/Responses/Sent.antt =====
-- What `http_write_response` of src/reactor/http.c leaves in the buffer of the stream.
use libreactorng.Prelude.{
  ℕ, ◌+◌, ◌^◌, ◌≤◌, ◌<◌, ◌≡◌, refl, sym, ap, subst, ◌∙◌, Option, none, some, List, [], ◌∷◌, ◌++◌,
  ◌>>=◌, take, length, length-append, arith, get_elem?_ext, get_elem?-take, lt_or_ge, inl, inr,
}
use libreactorng.Prelude.Words.{add64}
use libreactorng.Prelude.Memory.{Pointer, bytes, Allocator}
use libreactorng.Data
use libreactorng.Data.{Data}
use libreactorng.Data.Laws as DataLaws
use libreactorng.Strings
use libreactorng.Buffer
use libreactorng.Buffer.{Buffer}
use libreactorng.Buffer.Valid.{IsValid, contents, resize_lem, length-contents}
use libreactorng.Http.Fields.{Field}
use libreactorng.Http.Numbers.Digits.{decimal}
use libreactorng.Http.Responses
use libreactorng.Http.Responses.{Place}
use libreactorng.Http.Responses.Pushes.{Written, Pushes}
use libreactorng.Http.Responses.Texts.{AllValid, fields_text, response_text, push_response-Pushes}
use libreactorng.Http.Responses.Lengths.{length_data_lem, fields_size_lem, length-response_text}

basic_size_lem :
    (status type body length : Data)
    → Strings.size status + Strings.size type + Data.size body + Strings.size length < 2 ^ 63
    → Responses.basic_size status type body length
      ≡ Strings.size status + Strings.size type + Data.size body + Strings.size length + 95
unfolding Responses.basic_size
basic_size_lem status type body length h = omega arith

-- The text of the response that is asked for.
unfoldable pub response : (status date type body : Data) → List Field → List ℕ
response status date type body fields =
    response_text (DataLaws.contents status) (DataLaws.contents date) (DataLaws.contents type)
      (decimal 10 body.iov_len) (fields_text fields) (DataLaws.contents body)

-- The slices of a call, and a date of 29 bytes as "Thu, 01 Jan 1970 00:00:00 GMT".
pub record IsCall (status date type body : Data) (fields : List Field) : Type 0 where
  pub valid_status : DataLaws.IsValid status
  pub valid_date : DataLaws.IsValid date
  pub valid_type : DataLaws.IsValid type
  pub valid_body : DataLaws.IsValid body
  pub valid_fields : AllValid fields
  pub date_length : date.iov_len ≡ 29
  pub small_body : body.iov_len < 2 ^ 32

bytes-rewritten :
    (x : Pointer) (m : List ℕ)
    → length m ≡ length (bytes x)
    → 0 < length m
    → bytes (Buffer.rewritten x m) ≡ m
bytes-rewritten none m same more = absurd (omega (arith, same, more))
bytes-rewritten (some x) m same more = refl

module _ (heap : Allocator) where
  same_front :
      (b : Buffer) (n : ℕ)
      → IsValid b
      → b.region.iov_len ≤ n
      → n ≤ 2 ^ 63
      → take b.region.iov_len (bytes (Buffer.resize heap b n).region.iov_base) ≡ contents b
  same_front b n v more h =
      let (v', size, same) = resize_lem heap b n v h in
      let r = Buffer.resize heap b n in
      get_elem?_ext (take b.region.iov_len (bytes r.region.iov_base)) (contents b) (λ i.
        elim (lt_or_ge i b.region.iov_len) [
          | inl less ↦ ground (
            arith,
            same i less (omega (arith, more)),
            size,
            get_elem?-take b.region.iov_len (bytes r.region.iov_base) i,
            get_elem?-take n (bytes r.region.iov_base) i,
          )
          | inr past ↦ ground (
            arith,
            get_elem?-take b.region.iov_len (bytes r.region.iov_base) i,
            get_elem?-take b.region.iov_len (bytes b.region.iov_base) i,
          )
        ])

  over-IsValid :
      (r : Buffer) (m : List ℕ)
      → IsValid r
      → length m ≡ length (bytes r.region.iov_base)
      → 0 < length m
      → IsValid (Buffer.over r m) × (contents (Buffer.over r m) ≡ take r.region.iov_len m)
  over-IsValid r m v same more =
      let base = bytes-rewritten r.region.iov_base m same more in
      (
        record {
          owns = omega (arith, v.owns, same, ap length base);
          inside = v.inside;
          small = v.small;
        },
        ap (take r.region.iov_len) base,
      )

  -- What is pushed stands behind what the buffer held.
  pushed_lem :
      (b : Buffer) (n : ℕ) (push : Place → Option Place) (ys : List ℕ)
      → IsValid b
      → b.region.iov_len + n ≤ 2 ^ 63
      → 0 < n
      → length ys ≡ n
      → Pushes push ys
      → (b' : Buffer) × ((push (record {
        block = bytes (Buffer.base (Buffer.allocate heap b n).0);
        at = Buffer.size b;
      })
            >>= λ p. some (Buffer.over (Buffer.allocate heap b n).0 p.block))
          ≡ some b')
        × IsValid b'
        × (contents b' ≡ contents b ++ ys)
  unfolding Buffer.allocate Buffer.base Buffer.size Data.size
  pushed_lem b n push ys v fits more total pushes =
      let sum : add64 (Buffer.size b) n ≡ b.region.iov_len + n = omega (arith, fits) in
      let r = Buffer.resize heap b (b.region.iov_len + n) in
      let (v', size, same) = resize_lem heap b (b.region.iov_len + n) v fits in
      let m = bytes r.region.iov_base in
      let start : Written (length m) (record { block = m; at = b.region.iov_len }) (contents b) =
        record {
          front = same_front b (b.region.iov_len + n) v (omega arith) fits;
          here = sym (length-contents b v);
          room = refl;
        } in
      let (p', e, w) =
        pushes (length m) (record { block = m; at = b.region.iov_len }) (contents b) start
          (omega (arith, length-contents b v, total, size, v'.owns, v'.inside)) in
      let (v'', held) =
        over-IsValid r p'.block v' w.room (omega (arith, w.room, v'.owns, v'.inside, size, more)) in
      rw sum (
        Buffer.over r p'.block,
        ap (λ o. o >>= λ p. some (Buffer.over r p.block)) e,
        v'',
        held
            ∙ ap (λ k. take k p'.block)
                (omega
                  (arith, size, w.here, length-append (contents b) ys, length-contents b v, total))
            ∙ w.front,
      )

  allocated_lem :
      (storage : List ℕ) (waiting : Buffer) (status date type body : Data) (fields : List Field)
      → length storage ≡ 16
      → IsValid waiting
      → IsCall status date type body fields
      → waiting.region.iov_len + length (response status date type body fields) < 2 ^ 63
      → (b' : Buffer) × ((Responses.length_data storage body >>= λ length.
            Responses.write_allocated heap storage waiting
              (Responses.fields_size fields (Responses.basic_size status type body length))
              status
              date
              type
              length
              fields
              body)
          ≡ some b')
        × IsValid b'
        × (contents b' ≡ contents waiting ++ response status date type body fields)
  unfolding Responses.write_allocated response Strings.size Data.size
  allocated_lem storage waiting status date type body fields room v call fits =
      let (d, e, vd, digits, few) =
        length_data_lem storage body (omega (arith, room)) call.small_body in
      let text = response status date type body fields in
      let total =
        length-response_text (DataLaws.contents status) (DataLaws.contents date)
          (DataLaws.contents type) (decimal 10 body.iov_len) (fields_text fields)
          (DataLaws.contents body) in
      let ls = DataLaws.length-contents status call.valid_status in
      let ld = DataLaws.length-contents date call.valid_date in
      let lt = DataLaws.length-contents type call.valid_type in
      let lb = DataLaws.length-contents body call.valid_body in
      let ln : d.iov_len ≡ length (decimal 10 body.iov_len) =
        sym (DataLaws.length-contents d vd) ∙ ap length digits in
      let basic = basic_size_lem status type body d (omega (arith, fits, total, ls, lt, lb, ln)) in
      let all =
        fields_size_lem fields (Responses.basic_size status type body d) call.valid_fields
          (omega (arith, fits, total, ls, lt, lb, ln, ld, basic, call.date_length)) in
      let size : Responses.fields_size fields (Responses.basic_size status type body d)
          ≡ length text =
        omega (arith, total, ls, lt, lb, ln, ld, basic, all, call.date_length) in
      let pushes =
        subst
          (λ t.
            Pushes (λ p. Responses.push_response p status date type d fields body)
              (response_text (DataLaws.contents status) (DataLaws.contents date)
                (DataLaws.contents type) t (fields_text fields) (DataLaws.contents body)))
          digits
          (push_response-Pushes status date type d fields body call.valid_status call.valid_date
            call.valid_type vd call.valid_fields call.valid_body) in
      let (b', written, v', held) =
        pushed_lem waiting (length text)
          (λ p. Responses.push_response p status date type d fields body) text v
          (omega (arith, fits)) (omega (arith, total)) refl pushes in
      (
        b',
        ap
              (λ o. o >>= λ length.
                Responses.write_allocated heap storage waiting
                  (Responses.fields_size fields (Responses.basic_size status type body length))
                  status date type length fields body)
              e
            ∙ ap
                (λ n.
                  Responses.write_allocated heap storage waiting n status date type d fields body)
                size
            ∙ written,
        v',
        held,
      )

  -- `http_write_response` appends the response to a valid buffer: the status line, the fields
  -- `Server`, `Date`, `Content-Type` and `Content-Length` with the decimal size of the body, the
  -- caller's fields in order, an empty line and the body. The slices are valid, the date has 29 bytes,
  -- the body less than 2 ^ 32, and the buffer does not grow beyond 2 ^ 63.
  pub write_response_lem :
      (storage : List ℕ) (waiting : Buffer) (status date type body : Data) (fields : List Field)
      → length storage ≡ 16
      → IsValid waiting
      → IsCall status date type body fields
      → waiting.region.iov_len + length (response status date type body fields) < 2 ^ 63
      → (b' : Buffer) × (Responses.write_response heap storage waiting status date type body fields
          ≡ some b')
        × IsValid b'
        × (contents b' ≡ contents waiting ++ response status date type body fields)
  unfolding Responses.write_response Responses.write_response_basic
      Responses.write_response_extended Responses.fields_size
  write_response_lem storage waiting status date type body [] room v call fits =
      allocated_lem storage waiting status date type body [] room v call fits
  write_response_lem storage waiting status date type body (f ∷ fields) room v call fits =
      allocated_lem storage waiting status date type body (f ∷ fields) room v call fits
