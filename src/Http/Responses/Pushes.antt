-- ===== src/Http/Responses/Pushes.antt =====
-- What the `http_push_` functions of src/reactor/http.c write.
use libreactorng.Prelude.{
  ℕ, ◌+◌, ◌≤◌, ◌≡◌, sym, subst, length-drop, ap, ◌∙◌, Option, some, List, [], ◌∷◌, ◌++◌, ◌>>=◌,
  take, drop, length, length-append, length-take, take-append_left, append_assoc, arith,
}
use libreactorng.Prelude.Memory.{write}
use libreactorng.Data.{Data}
use libreactorng.Data.Laws as DataLaws
use libreactorng.Http.Fields.{Field}
use libreactorng.Http.Responses
use libreactorng.Http.Responses.{Place}

-- The block of `size` bytes is written up to the pointer, with `xs`.
pub record Written (size : ℕ) (p : Place) (xs : List ℕ) : Type 0 where
  pub front : take p.at p.block ≡ xs
  pub here : p.at ≡ length xs
  pub room : length p.block ≡ size

-- A push of `ys` succeeds where there is room, and writes them.
abbrev pub Pushes : (Place → Option Place) → List ℕ → Type 0
Pushes push ys =
    (size : ℕ) (p : Place) (xs : List ℕ)
    → Written size p xs
    → length xs + length ys ≤ size
    → (p' : Place) × (push p ≡ some p') × Written size p' (xs ++ ys)

write_at_end :
    (size : ℕ) (p : Place) (xs ys : List ℕ)
    → Written size p xs
    → length xs + length ys ≤ size
    → (m : List ℕ) × (write p.block p.at ys ≡ some m)
      × Written size (record { block = m; at = p.at + length ys }) (xs ++ ys)
unfolding write
write_at_end size p xs ys w fits =
    let m = take p.at p.block ++ (ys ++ drop (p.at + length ys) p.block) in
    let front_size : length (take p.at p.block) ≡ p.at =
      omega (arith, length-take p.at p.block, w.here, w.room, fits) in
    let both : length (take p.at p.block ++ ys) ≡ p.at + length ys =
      omega (arith, length-append (take p.at p.block) ys, front_size) in
    (
      m,
      ground (arith, fits, w.here, w.room),
      record {
        front =
            ap (take (p.at + length ys))
              (sym (append_assoc (take p.at p.block) ys (drop (p.at + length ys) p.block)))
            ∙ take-append_left (p.at + length ys) (take p.at p.block ++ ys)
                (drop (p.at + length ys) p.block) both
            ∙ ap (λ t. t ++ ys) w.front;
        here = omega (arith, w.here, length-append xs ys);
        room = omega (
          arith,
          length-append (take p.at p.block) (ys ++ drop (p.at + length ys) p.block),
          length-append ys (drop (p.at + length ys) p.block),
          length-drop (p.at + length ys) p.block,
          front_size,
          w.here,
          w.room,
          fits,
        );
      },
    )

pub Pushes-then :
    (f g : Place → Option Place) (xs ys : List ℕ)
    → Pushes f xs
    → Pushes g ys
    → Pushes (λ p. f p >>= g) (xs ++ ys)
Pushes-then f g xs ys pf pg size p zs w fits =
    let total = length-append xs ys in
    let (p1, e1, w1) = pf size p zs w (omega (arith, fits, total)) in
    let (p2, e2, w2) = pg size p1 (zs ++ xs) w1 (omega (arith, fits, total, length-append zs xs)) in
    (p2, ap (λ o. o >>= g) e1 ∙ e2, subst (Written size p2) (append_assoc zs xs ys) w2)

pub push_data-Pushes :
    (d : Data) → DataLaws.IsValid d → Pushes (λ p. Responses.push_data p d) (DataLaws.contents d)
unfolding Responses.push_data Responses.move
push_data-Pushes d v size p xs w fits =
    let got = DataLaws.read-contents d v in
    let count = DataLaws.length-contents d v in
    let (m, e, w') = write_at_end size p xs (DataLaws.contents d) w fits in
    (
      record { block = m; at = p.at + d.iov_len },
      ground (arith, got, e),
      subst (λ n. Written size (record { block = m; at = p.at + n }) (xs ++ DataLaws.contents d))
          count w',
    )

pub push_byte-Pushes : (c : ℕ) → Pushes (λ p. Responses.push_byte p c) (c ∷ [])
unfolding Responses.push_byte Responses.move
push_byte-Pushes c size p xs w fits =
    let (m, e, w') = write_at_end size p xs (c ∷ []) w fits in
    (record { block = m; at = p.at + 1 }, ground (arith, e), w')

-- A field as text.
unfoldable pub field_text : List ℕ → List ℕ → List ℕ
field_text name value = name ++ (b':' ∷ b' ' ∷ [] ++ (value ++ (13 ∷ 10 ∷ [])))

pub push_field-Pushes :
    (f : Field)
    → DataLaws.IsValid f.name
    → DataLaws.IsValid f.value
    → Pushes
        (λ p. Responses.push_field p f)
        (field_text (DataLaws.contents f.name) (DataLaws.contents f.value))
unfolding Responses.push_field field_text
push_field-Pushes f vn vv = Pushes-then _ _ _ _ (push_data-Pushes f.name vn) (
    Pushes-then _ _ (b':' ∷ []) _ (push_byte-Pushes b':') (
      Pushes-then _ _ (b' ' ∷ []) _ (push_byte-Pushes b' ') (
        Pushes-then _ _ _ _ (push_data-Pushes f.value vv)
          (Pushes-then _ _ (13 ∷ []) _ (push_byte-Pushes 13) (push_byte-Pushes 10)))))
