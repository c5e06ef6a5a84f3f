-- ===== src/Values/Encode/Printed.antt =====
-- The JSON text of a value, and that the state machine of src/reactor/encode.c prints it.
use libreactorng.Prelude.{
  ℕ, suc, ◌+◌, ◌≡◌, ◌≢◌, refl, sym, ap, ◌∙◌, Bool, Option, none, some, List, [], ◌∷◌, ◌++◌, length,
  get_elem?, arith,
}
use libreactorng.Values
use libreactorng.Values.{
  Value, Elements, Entries, undefined, null, boolean, number, string, array, object, nil, element,
}
use libreactorng.Values.Encode
use libreactorng.Values.Encode.Texts.{
  Prints, PrintsElements, PrintsMembers, prints_null, prints_bool, prints_number, prints_string,
  prints_array, prints_object, no_elements, next_element, no_members, next_member, comma, line,
  colon_text, truth_text, truth_lem, separate_lem, close_lem, colon_lem, quotes_lem,
}
use libreactorng.Values.Encode.{
  Machine, Context, State, state_value_start, state_value_end, state_array_rest, state_object_rest,
  state_accept, state_reject,
}

-- The machine at a value, and behind it.
abbrev pub at : State → Value → List Context → List ℕ → Machine
at state value stack buffer = record {
  state = state;
  value = value;
  stack = stack;
  buffer = buffer;
}

abbrev pub context : Value → Option (List (List ℕ)) → ℕ → Context
context value keys index = record { value = value; keys = keys; index = index }

module _ (pretty ascii : Bool) (print : ℕ → List ℕ) (sort : List (List ℕ) → List (List ℕ)) where
  abbrev machine_run : ℕ → Machine → Option (List ℕ × Bool)
  machine_run = Encode.run pretty ascii print sort

  -- Some rounds lead from one state of the machine to the other.
  abbrev pub Reaches : Machine → Machine → Type 0
  Reaches m q = (k : ℕ) × ((f : ℕ) → machine_run (k + f) m ≡ machine_run f q)

  pub one_round :
      (m q : Machine)
      → Encode.verdict m.state ≡ none
      → Encode.step pretty ascii print sort m ≡ some q
      → Reaches m q
  unfolding Encode.run
  one_round m q going e = (
    1,
    λ f.
        let one : 1 + f ≡ suc f = omega arith in
        ap (λ n. machine_run n m) one ∙ round f m q going e,
  )
    where
      round :
          (f : ℕ) (m q : Machine)
          → Encode.verdict m.state ≡ none
          → Encode.step pretty ascii print sort m ≡ some q
          → machine_run (suc f) m ≡ machine_run f q
      round f m q going e = ground (arith, going, e)

  pub and_then : (m q r : Machine) → Reaches m q → Reaches q r → Reaches m r
  and_then m q r (k, e) (l, h) = (
    k + l,
    λ f.
        let sum : k + l + f ≡ k + (l + f) = omega arith in
        ap (λ n. machine_run n m) sum ∙ e (l + f) ∙ h f,
  )

  -- A context at an index, on the stack of the machine.
  pub data IsRest : Elements → ℕ → Elements → Type 0 where
    whole_array : {vs : Elements} → IsRest vs 0 vs
    behind_one :
        {xs vs : Elements} {i : ℕ} {v : Value} → IsRest xs i (element v vs) → IsRest xs (i + 1) vs

  rest_lem :
      {xs vs : Elements} {i : ℕ}
      → IsRest xs i vs
      → (Values.array_length xs ≡ i + Values.array_length vs)
        × ((j : ℕ) → Values.array_get xs (i + j) ≡ Values.array_get vs j)
  unfolding Values.array_length Values.array_get
  rest_lem whole_array =
      (omega arith, λ j. let same : 0 + j ≡ j = omega arith in ap (Values.array_get _) same)
  rest_lem (behind_one {i = i} r) =
      let (size, gets) = rest_lem r in
      (
        omega (arith, size),
        λ j.
            let same : i + 1 + j ≡ i + suc j = omega arith in
            ap (Values.array_get _) same ∙ gets (suc j),
      )

  mutual
    unfolding Encode.step Encode.start_state Encode.step_array Encode.step_object Encode.step_keys
        Encode.object_keys Values.array_length Values.array_get

    pub values_reach :
        {d : ℕ} {v : Value} {b t : List ℕ}
        → Prints pretty ascii print sort d v b t
        → (stack : List Context) → length stack ≡ d
        → (w : Value) × Reaches (at state_value_start v stack b) (at state_value_end w stack t)
    values_reach (prints_null {b = b}) stack h = (
      null,
      and_then (at state_value_start null stack b) (at State.state_null null stack b)
          (at state_value_end null stack (b ++ Encode.null_text)) (one_round _ _ refl refl)
          (one_round _ _ refl refl),
    )
    values_reach (prints_bool {b = b} {x = x}) stack h = (
      boolean x,
      and_then (at state_value_start (boolean x) stack b) (at State.state_bool (boolean x) stack b)
          (at state_value_end (boolean x) stack (b ++ truth_text x)) (one_round _ _ refl refl)
          (one_round _ _ refl
            (ap (λ t. some (at state_value_end (boolean x) stack (b ++ t))) (truth_lem x))),
    )
    values_reach (prints_number {b = b} {n = n}) stack h = (
      number n,
      and_then (at state_value_start (number n) stack b) (at State.state_number (number n) stack b)
          (at state_value_end (number n) stack (b ++ print n)) (one_round _ _ refl refl)
          (one_round _ _ refl refl),
    )
    values_reach (prints_string {b = b} {s = s} {t = t} e) stack h = (
      string s,
      and_then (at state_value_start (string s) stack b) (at State.state_string (string s) stack b)
          (at state_value_end (string s) stack t) (one_round _ _ refl refl)
          (one_round _ _ refl (ground (arith, quotes_lem pretty ascii print sort s b t e))),
    )
    values_reach (prints_array {vs = vs} {b = b} {t = t} r) stack h =
        let first = at State.state_array_first (array vs) stack b in
        let rest =
          at state_array_rest (array vs) (context (array vs) none 0 ∷ stack) (b ++ (b'[' ∷ [])) in
        let (w, all) = elements_reach r vs (array vs) stack h whole_array in
        (
          w,
          and_then (at state_value_start (array vs) stack b) first (at state_value_end w stack t)
              (one_round _ _ refl refl)
              (and_then first rest (at state_value_end w stack t) (one_round _ _ refl refl) all),
        )
    values_reach (prints_object {es = es} {b = b} {t = t} r) stack h =
        let keys = sort (Values.table_keys es) in
        let first = at State.state_object_first (object es) stack b in
        let rest =
          at state_object_rest (object es) (context (object es) (some keys) 0 ∷ stack)
            (b ++ (b'{' ∷ [])) in
        let (w, all) =
          members_reach r keys (object es) stack h (omega arith)
            (λ j. let same : 0 + j ≡ j = omega arith in ap (get_elem? keys) same) in
        (
          w,
          and_then (at state_value_start (object es) stack b) first (at state_value_end w stack t)
              (one_round _ _ refl refl)
              (and_then first rest (at state_value_end w stack t) (one_round _ _ refl refl) all),
        )

    elements_reach :
        {d i : ℕ} {vs : Elements} {b t : List ℕ}
        → PrintsElements pretty ascii print sort d i vs b t
        → (xs : Elements) (w : Value) (stack : List Context) → length stack ≡ d
        → IsRest xs i vs
        → (w' : Value) × Reaches
            (at state_array_rest w (context (array xs) none i ∷ stack) b)
            (at state_value_end w' stack t)
    elements_reach (no_elements {d = d} {i = i} {b = b}) xs w stack h r =
        let (size, gets) = rest_lem r in
        let same : i ≡ Values.array_length xs = omega (arith, size) in
        let closed = close_lem pretty ascii print sort d i b']' b in
        (w, one_round _ _ refl (ground (arith, same, h, closed)))
    elements_reach (next_element {d = d} {i = i} {v = v} {b = b} {t = t} {u = u} p more) xs w stack
          h r =
        let (size, gets) = rest_lem r in
        let here : i + 0 ≡ i = omega arith in
        let got : Values.array_get xs i ≡ some v = ap (Values.array_get xs) (sym here) ∙ gets 0 in
        let other : i ≢ Values.array_length xs = λ same. omega (arith, same, size) in
        let inner = context (array xs) none (i + 1) ∷ stack in
        let from = at state_array_rest w (context (array xs) none i ∷ stack) b in
        let start = at state_value_start v inner ((b ++ comma i) ++ line pretty (suc d)) in
        let between = separate_lem pretty ascii print sort (suc d) i b in
        let (x, printed) = values_reach p inner (omega (arith, h)) in
        let (y, all) = elements_reach more xs x stack h (behind_one r) in
        (
          y,
          and_then from start (at state_value_end y stack u)
              (one_round _ _ refl (ground (arith, other, got, h, between)))
              (and_then start (at state_value_end x inner t) (at state_value_end y stack u) printed
                (and_then (at state_value_end x inner t) (at state_array_rest x inner t)
                  (at state_value_end y stack u) (one_round _ _ refl refl) all)),
        )

    members_reach :
        {d i : ℕ} {es : Entries} {keys : List (List ℕ)} {b t : List ℕ}
        → PrintsMembers pretty ascii print sort d i es keys b t
        → (all : List (List ℕ)) (w : Value) (stack : List Context) → length stack ≡ d
        → length all ≡ i + length keys
        → ((j : ℕ) → get_elem? all (i + j) ≡ get_elem? keys j)
        → (w' : Value) × Reaches
            (at state_object_rest w (context (object es) (some all) i ∷ stack) b)
            (at state_value_end w' stack t)
    members_reach (no_members {d = d} {i = i} {es = es} {b = b}) all w stack h size gets =
        let same : i ≡ length all = omega (arith, size) in
        let closed = close_lem pretty ascii print sort d i b'}' b in
        (w, one_round _ _ refl (ground (arith, same, h, closed)))
    members_reach
          (next_member {d = d} {i = i} {es = es} {key = key} {keys = keys} {b = b} {t = t} {u = u}
            {w = v} e p more)
          all w stack h size gets =
        let here : i + 0 ≡ i = omega arith in
        let got : get_elem? all i ≡ some key = ap (get_elem? all) (sym here) ∙ gets 0 in
        let other : i ≢ length all = λ same. omega (arith, same, size) in
        let inner = context (object es) (some all) (i + 1) ∷ stack in
        let from = at state_object_rest w (context (object es) (some all) i ∷ stack) b in
        let value = Values.object_get es key in
        let start = at state_value_start value inner (t ++ colon_text pretty) in
        let between = separate_lem pretty ascii print sort (suc d) i b in
        let quoted =
          quotes_lem pretty ascii print sort key ((b ++ comma i) ++ line pretty (suc d)) t e in
        let colon = colon_lem pretty ascii print sort in
        let (x, printed) = values_reach p inner (omega (arith, h)) in
        let (y, rest) = members_reach more all x stack h (omega (arith, size)) (λ j.
          let next : i + 1 + j ≡ i + suc j = omega arith in
          ap (get_elem? all) next ∙ gets (suc j)) in
        (
          y,
          and_then from start (at state_value_end y stack v)
              (one_round _ _ refl (ground (arith, other, got, h, between, quoted, colon)))
              (and_then start (at state_value_end x inner u) (at state_value_end y stack v) printed
                (and_then (at state_value_end x inner u) (at state_object_rest x inner u)
                  (at state_value_end y stack v) (one_round _ _ refl refl) rest)),
        )
