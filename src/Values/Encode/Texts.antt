-- ===== src/Values/Encode/Texts.antt =====
-- The JSON text of a value, apart from the state machine of src/reactor/encode.c.
use libreactorng.Prelude.{
  ℕ, zero, suc, ◌+◌, ◌*◌, ◌≡◌, ◌∙◌, refl, sym, ap, Bool, true, false, ◌&&◌, not, some, List, [],
  ◌∷◌, ◌++◌, ◌==◌, if◌then◌else◌, length, replicate, append-nil, arith,
}
use libreactorng.Strings.Json
use libreactorng.Values
use libreactorng.Values.{
  Value, Elements, Entries, null, boolean, number, string, array, object, nil, element,
}
use libreactorng.Values.Encode

-- The punctuation of JSON. Between two elements stands a comma.
unfoldable pub comma : (index : ℕ) → List ℕ
comma zero = []
comma (suc i) = b',' ∷ []

unfoldable pub spaces : ℕ → List ℕ
spaces zero = []
spaces (suc n) = b' ' ∷ b' ' ∷ spaces n

-- With `pretty` every element has a line, indented by two spaces for each bracket around it.
unfoldable pub line : (pretty : Bool) → (depth : ℕ) → List ℕ
line true depth = 10 ∷ spaces depth
line false depth = []

-- The closing bracket has a line too, unless there is no element.
unfoldable pub last_line : (pretty : Bool) → (depth index : ℕ) → List ℕ
last_line pretty depth zero = []
last_line pretty depth (suc i) = line pretty depth

-- Behind a key.
unfoldable pub colon_text : (pretty : Bool) → List ℕ
colon_text true = b':' ∷ b' ' ∷ []
colon_text false = b':' ∷ []

unfoldable pub truth_text : Bool → List ℕ
truth_text true = b't' ∷ b'r' ∷ b'u' ∷ b'e' ∷ []
truth_text false = b'f' ∷ b'a' ∷ b'l' ∷ b's' ∷ b'e' ∷ []

-- A string between quotes: `Strings.Json.encode` appends its escaped bytes.
abbrev pub Quotes : Bool → (s b t : List ℕ) → Type 0
Quotes ascii s b t =
    (u : List ℕ) × (Json.encode (suc (length s)) ascii (b ++ (b'"' ∷ [])) s ≡ some u)
    × (t ≡ u ++ (b'"' ∷ []))

module _ (pretty ascii : Bool) (print : ℕ → List ℕ) (sort : List (List ℕ) → List (List ℕ)) where
  -- `Prints d v b t`: inside `d` brackets, the value `v` behind the text `b` gives `t`.
  mutual
    pub data Prints : ℕ → Value → List ℕ → List ℕ → Type 0 where
      prints_null : {d : ℕ} {b : List ℕ} → Prints d null b (b ++ (b'n' ∷ b'u' ∷ b'l' ∷ b'l' ∷ []))
      prints_bool : {d : ℕ} {b : List ℕ} {x : Bool} → Prints d (boolean x) b (b ++ truth_text x)
      prints_number : {d : ℕ} {b : List ℕ} {n : ℕ} → Prints d (number n) b (b ++ print n)
      prints_string : {d : ℕ} {b s t : List ℕ} → Quotes ascii s b t → Prints d (string s) b t
      prints_array :
          {d : ℕ} {vs : Elements} {b t : List ℕ}
          → PrintsElements d 0 vs (b ++ (b'[' ∷ [])) t
          → Prints d (array vs) b t
      prints_object :
          {d : ℕ} {es : Entries} {b t : List ℕ}
          → PrintsMembers d 0 es (sort (Values.table_keys es)) (b ++ (b'{' ∷ [])) t
          → Prints d (object es) b t

    -- The elements from the index on, and the closing bracket.
    pub data PrintsElements : ℕ → ℕ → Elements → List ℕ → List ℕ → Type 0 where
      no_elements :
          {d i : ℕ} {b : List ℕ}
          → PrintsElements d i nil b ((b ++ last_line pretty d i) ++ (b']' ∷ []))
      next_element :
          {d i : ℕ} {v : Value} {vs : Elements} {b t u : List ℕ}
          → Prints (suc d) v ((b ++ comma i) ++ line pretty (suc d)) t
          → PrintsElements d (i + 1) vs t u
          → PrintsElements d i (element v vs) b u

    -- The members of the keys from the index on, and the closing brace.
    pub data PrintsMembers : ℕ → ℕ → Entries → List (List ℕ) → List ℕ → List ℕ → Type 0 where
      no_members :
          {d i : ℕ} {es : Entries} {b : List ℕ}
          → PrintsMembers d i es [] b ((b ++ last_line pretty d i) ++ (b'}' ∷ []))
      next_member :
          {d i : ℕ} {es : Entries} {key : List ℕ} {keys : List (List ℕ)} {b t u w : List ℕ}
          → Quotes ascii key ((b ++ comma i) ++ line pretty (suc d)) t
          → Prints (suc d) (Values.object_get es key) (t ++ colon_text pretty) u
          → PrintsMembers d (i + 1) es keys u w
          → PrintsMembers d i es (key ∷ keys) b w

-- What the machine appends is that punctuation.
replicate-spaces : (n : ℕ) → replicate (n * 2) b' ' ≡ spaces n
unfolding spaces
replicate-spaces zero = refl
replicate-spaces (suc n) =
    let two : suc n * 2 ≡ suc (suc (n * 2)) = omega arith in
    ap (λ k. replicate k b' ') two ∙ ap (λ t. b' ' ∷ b' ' ∷ t) (replicate-spaces n)

new_line-line : (n : ℕ) (b : List ℕ) → Encode.new_line n b ≡ b ++ line true n
unfolding Encode.new_line line
new_line-line n b = ap (λ t. b ++ (10 ∷ t)) (replicate-spaces n)

pub truth_lem : (x : Bool) → Encode.bool_text x ≡ truth_text x
unfolding truth_text
truth_lem true = refl
truth_lem false = refl

module _ (pretty ascii : Bool) (print : ℕ → List ℕ) (sort : List (List ℕ) → List (List ℕ)) where
  comma_of : (i : ℕ) (b : List ℕ) → (if i == 0 then b else b ++ (b',' ∷ [])) ≡ b ++ comma i
  unfolding comma
  comma_of zero b = sym (append-nil b)
  comma_of (suc i) b = ground arith

  line_of : (q : Bool) (n : ℕ) (b : List ℕ) → (if q then Encode.new_line n b else b) ≡ b ++ line q n
  unfolding line
  line_of true n b = new_line-line n b
  line_of false n b = sym (append-nil b)

  pub separate_lem :
      (n i : ℕ) (b : List ℕ)
      → Encode.separate pretty ascii print sort n i b ≡ (b ++ comma i) ++ line pretty n
  unfolding Encode.separate
  separate_lem n i b =
      ap (λ t. if pretty then Encode.new_line n t else t) (comma_of i b)
      ∙ line_of pretty n (b ++ comma i)

  last_of :
      (q : Bool) (n i : ℕ) (b : List ℕ)
      → (if q && not (i == 0) then Encode.new_line n b else b) ≡ b ++ last_line q n i
  unfolding last_line line
  last_of true n zero b = sym (append-nil b)
  last_of false n zero b = sym (append-nil b)
  last_of true n (suc i) b = ground (arith, new_line-line n b)
  last_of false n (suc i) b = sym (append-nil b)

  pub close_lem :
      (n i c : ℕ) (b : List ℕ)
      → Encode.close pretty ascii print sort n i c b ≡ (b ++ last_line pretty n i) ++ (c ∷ [])
  unfolding Encode.close
  close_lem n i c b = ap (λ t. t ++ (c ∷ [])) (last_of pretty n i b)

  colon_of : (q : Bool) → (if q then b':' ∷ b' ' ∷ [] else b':' ∷ []) ≡ colon_text q
  unfolding colon_text
  colon_of true = refl
  colon_of false = refl

  pub colon_lem : Encode.colon pretty ascii print sort ≡ colon_text pretty
  colon_lem = colon_of pretty

  pub quotes_lem : (s b t : List ℕ) → Quotes ascii s b t → Encode.encode_string ascii b s ≡ some t
  unfolding Encode.encode_string
  quotes_lem s b t (u, e, same) = ground (arith, e, same)
