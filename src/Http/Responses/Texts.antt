-- ===== src/Http/Responses/Texts.antt =====
-- The text of a response, and the statements of src/reactor/http.c that push it.
use libreactorng.Prelude.{
  ℕ, ◌^◌, ◌<◌, ◌≡◌, refl, sym, subst, ap, ◌∙◌, Bool, true, not, ◌&&◌, some, List, [], ◌∷◌, ◌++◌,
  ◌==◌, ◌>>=◌, length, length-append, take-append_left, append-nil, arith,
}
use libreactorng.Data
use libreactorng.Data.{Data}
use libreactorng.Data.Laws as DataLaws
use libreactorng.Strings
use libreactorng.Http.Fields.{Field}
use libreactorng.Http.Responses
use libreactorng.Http.Responses.{Place}
use libreactorng.Http.Responses.Pushes.{
  Written, Pushes, Pushes-then, push_data-Pushes, field_text, push_field-Pushes,
}

-- The text has no NUL.
unfoldable pub no_nul : List ℕ → Bool
no_nul [] = true
no_nul (c ∷ s) = not (c == 0) && no_nul s

strlen_lem : (s : List ℕ) → no_nul s ≡ true → Data.strlen (s ++ (0 ∷ [])) ≡ some (length s)
unfolding no_nul Data.strlen
strlen_lem [] h = refl
strlen_lem (c ∷ s) h = ground (arith, strlen_lem s)

-- The slice of a literal.
abbrev pub literal : List ℕ → Data
literal s = record { iov_base = some (s ++ (0 ∷ [])); iov_len = length s }

string-literal : (s : List ℕ) → no_nul s ≡ true → Strings.string (s ++ (0 ∷ [])) ≡ some (literal s)
unfolding Strings.string Data.string Data.define
string-literal s h = ground (arith, strlen_lem s h)

literal-IsValid : (s : List ℕ) → length s < 2 ^ 64 → DataLaws.IsValid (literal s)
literal-IsValid s h = record { inside = omega (arith, length-append s (0 ∷ [])); fits = h }

contents-literal : (s : List ℕ) → DataLaws.contents (literal s) ≡ s
contents-literal s = take-append_left (length s) s (0 ∷ []) refl

push_text-Pushes :
    (s : List ℕ) → no_nul s ≡ true → length s < 2 ^ 64 → Pushes (λ p. Responses.push_text p s) s
unfolding Responses.push_text
push_text-Pushes s h small size p xs w fits =
    let text = contents-literal s in
    let (p', e, w') =
      push_data-Pushes (literal s) (literal-IsValid s small) size p xs w
        (omega (arith, fits, ap length text)) in
    (
      p',
      ap (λ o. o >>= λ d. Responses.push_data p d) (string-literal s h) ∙ e,
      subst (λ t. Written size p' (xs ++ t)) text w',
    )

push_named-Pushes :
    (name : List ℕ) (value : Data)
    → no_nul name ≡ true
    → length name < 2 ^ 64
    → DataLaws.IsValid value
    → Pushes (λ p. Responses.push_named p name value) (field_text name (DataLaws.contents value))
unfolding Responses.push_named
push_named-Pushes name value h small valid =
    let text = contents-literal name in
    let field : Field = record { name = literal name; value = value } in
    let field_pushes = push_field-Pushes field (literal-IsValid name small) valid in
    λ size p xs w fits.
      let (p', e, w') =
        subst
          (λ t. Pushes (λ q. Responses.push_field q field) (field_text t (DataLaws.contents value)))
          text field_pushes size p xs w fits in
      (
        p',
        ap (λ o. o >>= λ d. Responses.push_field p (record { name = d; value = value }))
              (string-literal name h)
            ∙ e,
        w',
      )

-- The fields of the caller.
abbrev pub AllValid : List Field → Type 0
AllValid [] = Unit {0}
AllValid (f ∷ fields) = DataLaws.IsValid f.name × DataLaws.IsValid f.value × AllValid fields

unfoldable pub fields_text : List Field → List ℕ
fields_text [] = []
fields_text (f ∷ fields) =
    field_text (DataLaws.contents f.name) (DataLaws.contents f.value) ++ fields_text fields

push_fields-Pushes :
    (fields : List Field)
    → AllValid fields
    → Pushes (λ p. Responses.push_fields p fields) (fields_text fields)
unfolding Responses.push_fields fields_text
push_fields-Pushes [] v size p xs w fits = (p, refl, subst (Written size p) (sym (append-nil xs)) w)
push_fields-Pushes (f ∷ fields) (vn, vv, v) size p xs w fits =
    Pushes-then _ _ _ _ (push_field-Pushes f vn vv) (push_fields-Pushes fields v) size p xs w fits

-- A response: the status line, the fields, an empty line and the body.
unfoldable pub response_text : (status date type length fields body : List ℕ) → List ℕ
response_text status date type length fields body =
    Responses.version_text
    ++ (status
        ++ (Responses.line_text
            ++ (field_text Responses.server_text Responses.star_text
                ++ (field_text Responses.date_text date
                    ++ (field_text Responses.type_text type
                        ++ (field_text Responses.length_text length
                            ++ (fields ++ (Responses.line_text ++ body))))))))

pub push_response-Pushes :
    (status date type length : Data) (fields : List Field) (body : Data)
    → DataLaws.IsValid status
    → DataLaws.IsValid date
    → DataLaws.IsValid type
    → DataLaws.IsValid length
    → AllValid fields
    → DataLaws.IsValid body
    → Pushes
        (λ p. Responses.push_response p status date type length fields body)
        (response_text
          (DataLaws.contents status)
          (DataLaws.contents date)
          (DataLaws.contents type)
          (DataLaws.contents length)
          (fields_text fields)
          (DataLaws.contents body))
unfolding Responses.push_response response_text Strings.string Data.string Data.define no_nul
    Data.strlen
push_response-Pushes status date type length fields body vs vd vt vl vf vb =
    Pushes-then _ _ _ _ (push_text-Pushes Responses.version_text refl (omega arith)) (
      Pushes-then _ _ _ _ (push_data-Pushes status vs) (
        Pushes-then _ _ _ _ (push_text-Pushes Responses.line_text refl (omega arith)) (
          Pushes-then _ _ _ _
            (push_named-Pushes Responses.server_text (literal Responses.star_text) refl
              (omega arith) (literal-IsValid Responses.star_text (omega arith)))
            (Pushes-then _ _ _ _ (push_named-Pushes Responses.date_text date refl (omega arith) vd)
              (Pushes-then _ _ _ _
                (push_named-Pushes Responses.type_text type refl (omega arith) vt)
                (Pushes-then _ _ _ _
                  (push_named-Pushes Responses.length_text length refl (omega arith) vl)
                  (Pushes-then _ _ _ _ (push_fields-Pushes fields vf) (
                    Pushes-then _ _ _ _ (push_text-Pushes Responses.line_text refl (omega arith))
                      (push_data-Pushes body vb)))))))))
