-- ===== src/Http/Responses/Lengths.antt =====
-- The length of a response, and the sum that src/reactor/http.c takes for it.
use mathlib.Core.List.{reverse, reverse_aux}
use libreactorng.Prelude.{
  ℕ, zero, suc, ◌+◌, ◌%◌, ◌^◌, ◌≤◌, ◌<◌, ◌≡◌, refl, ap, ap₂, take-append_left, ◌∙◌, some, List, [],
  ◌∷◌, ◌++◌, take, drop, length, length-append, length-take, arith,
}
use libreactorng.Prelude.Memory.{read}
use libreactorng.Data
use libreactorng.Data.{Data}
use libreactorng.Data.Laws as DataLaws
use libreactorng.Strings
use libreactorng.Http.Fields.{Field}
use libreactorng.Http.Numbers.Digits.{decimal, length-decimal, decimal_fuel}
use libreactorng.Http.Numbers.Lengths.{u32_len_lem, u32_len-IsLength}
use libreactorng.Http.Numbers.Printed.{u32_sprint_lem}
use libreactorng.Http.Responses
use libreactorng.Http.Responses.Pushes.{field_text}
use libreactorng.Http.Responses.Texts.{AllValid, fields_text, response_text}

length-reverse_aux : (xs ys : List ℕ) → length (reverse_aux xs ys) ≡ length xs + length ys
length-reverse_aux [] ys = omega arith
length-reverse_aux (x ∷ xs) ys = omega (arith, length-reverse_aux xs (x ∷ ys))

length-reverse : (xs : List ℕ) → length (reverse xs) ≡ length xs
length-reverse xs = omega (arith, length-reverse_aux xs [])

drop_all : (n : ℕ) (xs : List ℕ) → length xs ≡ n → drop n xs ≡ []
drop_all zero [] h = refl
drop_all zero (x ∷ xs) h = absurd (omega (arith, h))
drop_all (suc n) [] h = refl
drop_all (suc n) (x ∷ xs) h = drop_all n xs (omega (arith, h))

few_digits : (n : ℕ) → n < 2 ^ 32 → length (decimal 10 n) ≤ 10
few_digits n small =
    let l = u32_len-IsLength n small in
    omega (arith, l.few, length-decimal l.j 10 n l.few l.less l.least)

-- The storage holds the decimal digits of the size.
pub length_data_lem :
    (storage : List ℕ) (body : Data)
    → 10 ≤ length storage
    → body.iov_len < 2 ^ 32
    → (d : Data) × (Responses.length_data storage body ≡ some d)
      × DataLaws.IsValid d
      × (DataLaws.contents d ≡ decimal 10 body.iov_len)
      × (length (decimal 10 body.iov_len) ≤ 10)
unfolding read Responses.length_data Data.size Data.define
length_data_lem storage body room small =
    let n = body.iov_len in
    let same : n % 2 ^ 32 ≡ n = omega arith in
    let len = u32_len_lem n small in
    let fuel : decimal 32 n ≡ decimal 10 n =
      decimal_fuel 32 10 n (omega arith) (omega arith) (omega arith) (omega arith) in
    let few : length (decimal 10 n) ≤ 10 = few_digits n small in
    let front = take (length (decimal 10 n)) storage in
    let front_length : length front ≡ length (decimal 10 n) =
      omega (arith, length-take (length (decimal 10 n)) storage, few, room) in
    let printed =
      u32_sprint_lem 16 32 n (reverse front) (drop (length (decimal 10 n)) storage) refl
        (omega arith) (omega arith)
        (omega (arith, ap length fuel, length-reverse front, front_length)) in
    let at : Responses.length_data storage body
        ≡ some (record {
          iov_base = some (
              reverse (drop (length (decimal 32 n)) (reverse front))
              ++ (decimal 32 n ++ drop (length (decimal 10 n)) storage));
          iov_len = length (decimal 10 n);
        }) =
      ground (arith, same, len, printed, few, room) in
    let clean : reverse (drop (length (decimal 32 n)) (reverse front)) ≡ [] =
      ap (λ xs. reverse xs)
        (drop_all (length (decimal 32 n)) (reverse front)
          (omega (arith, ap length fuel, length-reverse front, front_length))) in
    (
      record {
        iov_base = some (decimal 10 n ++ drop (length (decimal 10 n)) storage);
        iov_len = length (decimal 10 n);
      },
      at
          ∙ ap₂
              (λ xs ys. some (record {
                iov_base = some (xs ++ (ys ++ drop (length (decimal 10 n)) storage));
                iov_len = length (decimal 10 n);
              }))
              clean fuel,
      record {
        inside = omega (arith, length-append (decimal 10 n) (drop (length (decimal 10 n)) storage));
        fits = omega (arith, few);
      },
      take-append_left (length (decimal 10 n)) (decimal 10 n) (drop (length (decimal 10 n)) storage)
          refl,
      few,
    )

length-field_text :
    (name value : List ℕ) → length (field_text name value) ≡ length name + length value + 4
unfolding field_text
length-field_text name value = omega (
  arith,
  length-append name (b':' ∷ b' ' ∷ [] ++ (value ++ (13 ∷ 10 ∷ []))),
  length-append value (13 ∷ 10 ∷ []),
)

-- The sum over the caller's fields.
pub fields_size_lem :
    (fields : List Field) (size : ℕ)
    → AllValid fields
    → size + length (fields_text fields) < 2 ^ 64
    → Responses.fields_size fields size ≡ size + length (fields_text fields)
unfolding Responses.fields_size fields_text Strings.size Data.size
fields_size_lem [] size v h = omega arith
fields_size_lem (f ∷ fields) size (vn, vv, v) h =
    let text = field_text (DataLaws.contents f.name) (DataLaws.contents f.value) in
    let both = length-append text (fields_text fields) in
    let one = length-field_text (DataLaws.contents f.name) (DataLaws.contents f.value) in
    let name = DataLaws.length-contents f.name vn in
    let value = DataLaws.length-contents f.value vv in
    let step : Responses.fields_size (f ∷ fields) size
        ≡ Responses.fields_size fields (size + length text) =
      ap (Responses.fields_size fields) (omega (arith, one, name, value, both, h)) in
    step
    ∙ omega (arith, fields_size_lem fields (size + length text) v (omega (arith, both, h)), both)

pub length-response_text :
    (status date type number fields body : List ℕ)
    → length (response_text status date type number fields body)
      ≡ length status + length date + length type + length number + length fields + length body + 66
unfolding response_text
length-response_text status date type number fields body =
    let tail = Responses.line_text ++ body in
    let l1 = length-append fields tail in
    let t1 = fields ++ tail in
    let f2 = field_text Responses.length_text number in
    let l2 = length-append f2 t1 in
    let t2 = f2 ++ t1 in
    let f3 = field_text Responses.type_text type in
    let l3 = length-append f3 t2 in
    let t3 = f3 ++ t2 in
    let f4 = field_text Responses.date_text date in
    let l4 = length-append f4 t3 in
    let t4 = f4 ++ t3 in
    let f5 = field_text Responses.server_text Responses.star_text in
    let l5 = length-append f5 t4 in
    let t5 = f5 ++ t4 in
    let l6 = length-append status (Responses.line_text ++ t5) in
    omega (
      arith,
      l1,
      l2,
      l3,
      l4,
      l5,
      l6,
      length-field_text Responses.length_text number,
      length-field_text Responses.type_text type,
      length-field_text Responses.date_text date,
      length-field_text Responses.server_text Responses.star_text,
    )
