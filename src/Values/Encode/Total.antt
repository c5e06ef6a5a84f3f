-- ===== src/Values/Encode/Total.antt =====
-- The state machine of src/reactor/encode.c ends on every value without undefined parts.
use libreactorng.Prelude.{
  ℕ, suc, ◌+◌, ◌≡◌, ◌⊎◌, inl, inr, refl, Bool, true, false, Bool-cases, some, List, [], ◌∷◌, ◌++◌,
  length, arith,
}
use libreactorng.Strings.Json.Total.{encode_total}
use libreactorng.Values
use libreactorng.Values.{
  Value, Elements, Entries, undefined, null, boolean, number, string, array, object, nil, element,
  empty, entry,
}
use libreactorng.Values.Encode
use libreactorng.Values.Encode.{state_value_start, state_value_end, state_accept}
use libreactorng.Values.Encode.Texts.{
  Quotes, Prints, PrintsElements, PrintsMembers, prints_null, prints_bool, prints_number,
  prints_string, prints_array, prints_object, no_elements, next_element, no_members, next_member,
  comma, line, colon_text,
}
use libreactorng.Values.Encode.Printed.{values_reach}

-- No part of the value is undefined.
unfoldable mutual
  pub IsDefined : Value → Type 0
  IsDefined undefined = ⊥
  IsDefined (array vs) = AllDefined vs
  IsDefined (object es) = EntriesDefined es
  IsDefined null = Unit {0}
  IsDefined (boolean b) = Unit {0}
  IsDefined (number n) = Unit {0}
  IsDefined (string s) = Unit {0}

  pub AllDefined : Elements → Type 0
  AllDefined nil = Unit {0}
  AllDefined (element v vs) = IsDefined v × AllDefined vs

  pub EntriesDefined : Entries → Type 0
  EntriesDefined empty = Unit {0}
  EntriesDefined (entry k v es) = IsDefined v × EntriesDefined es

abbrev pub All : (List ℕ → Type 0) → List (List ℕ) → Type 0
All P [] = Unit {0}
All P (k ∷ keys) = P k × All P keys

-- What qsort promises of the keys it gives: they are among those it was given.
abbrev pub IsSort : (List (List ℕ) → List (List ℕ)) → Type 1
IsSort sort = (P : List ℕ → Type 0) (keys : List (List ℕ)) → All P keys → All P (sort keys)

unfoldable HasKey : Entries → List ℕ → Type 0
HasKey empty key = ⊥
HasKey (entry k v es) key = (Values.same_key k key ≡ true) ⊎ HasKey es key

same_key_lem : (k : List ℕ) → Values.same_key k k ≡ true
unfolding Values.same_key
same_key_lem [] = refl
same_key_lem (x ∷ k) = ground (arith, same_key_lem k)

weaker :
    (k : List ℕ) (v : Value) (es : Entries) (keys : List (List ℕ))
    → All (HasKey es) keys
    → All (HasKey (entry k v es)) keys
unfolding HasKey
weaker k v es [] all = tt
weaker k v es (key ∷ keys) (h, all) = (inr h, weaker k v es keys all)

own_keys : (es : Entries) → All (HasKey es) (Values.table_keys es)
unfolding HasKey Values.table_keys
own_keys empty = tt
own_keys (entry k v es) = (inl (same_key_lem k), weaker k v es (Values.table_keys es) (own_keys es))

encode-Quotes : (ascii : Bool) (b s : List ℕ) → (t : List ℕ) × Quotes ascii s b t
encode-Quotes ascii b s =
    let (u, e, keeps) = encode_total (suc (length s)) ascii (b ++ (b'"' ∷ [])) s (omega arith) in
    (u ++ (b'"' ∷ []), (u, e, refl))

behind :
    (name : List ℕ) (v : Value) (es : Entries) (key : List ℕ)
    → Values.same_key name key ≡ false
    → HasKey (entry name v es) key
    → HasKey es key
unfolding HasKey
behind name v es key other (inl same) = ground (arith, other, same)
behind name v es key other (inr k) = k

module _ (pretty ascii : Bool) (print : ℕ → List ℕ) (sort : List (List ℕ) → List (List ℕ)) where
  abbrev Printable : ℕ → Value → List ℕ → Type 0
  Printable d v b = (t : List ℕ) × Prints pretty ascii print sort d v b t

  members_total :
      (es : Entries) (keys : List (List ℕ)) (d i : ℕ) (b : List ℕ)
      → ((key : List ℕ) (d : ℕ) (b : List ℕ)
          → HasKey es key
          → Printable d (Values.object_get es key) b)
      → All (HasKey es) keys
      → (t : List ℕ) × PrintsMembers pretty ascii print sort d i es keys b t
  members_total es [] d i b values all = (_, no_members)
  members_total es (key ∷ keys) d i b values (h, all) =
      let (t, e) = encode-Quotes ascii ((b ++ comma i) ++ line pretty (suc d)) key in
      let (u, p) = values key (suc d) (t ++ colon_text pretty) h in
      let (w, more) = members_total es keys d (i + 1) u values all in (w, next_member e p more)

  mutual
    unfolding IsDefined HasKey Values.object_get

    prints_total : (v : Value) → IsDefined v → IsSort sort → (d : ℕ) (b : List ℕ) → Printable d v b
    prints_total undefined h s d b = absurd h
    prints_total null h s d b = (_, prints_null)
    prints_total (boolean x) h s d b = (_, prints_bool)
    prints_total (number n) h s d b = (_, prints_number)
    prints_total (string text) h s d b =
        let (t, e) = encode-Quotes ascii b text in (t, prints_string e)
    prints_total (array vs) h s d b =
        let (t, p) = elements_total vs h s d 0 (b ++ (b'[' ∷ [])) in (t, prints_array p)
    prints_total (object es) h s d b =
        let (t, p) =
          members_total es (sort (Values.table_keys es)) d 0 (b ++ (b'{' ∷ []))
            (λ key d b k. entries_total es h s key k d b)
            (s (HasKey es) (Values.table_keys es) (own_keys es)) in
        (t, prints_object p)

    elements_total :
        (vs : Elements)
        → AllDefined vs
        → IsSort sort
        → (d i : ℕ) (b : List ℕ) → (t : List ℕ) × PrintsElements pretty ascii print sort d i vs b t
    elements_total nil h s d i b = (_, no_elements)
    elements_total (element v vs) (h, all) s d i b =
        let (t, p) = prints_total v h s (suc d) ((b ++ comma i) ++ line pretty (suc d)) in
        let (u, more) = elements_total vs all s d (i + 1) t in (u, next_element p more)

    entries_total :
        (es : Entries)
        → EntriesDefined es
        → IsSort sort
        → (key : List ℕ) → HasKey es key
        → (d : ℕ) (b : List ℕ) → Printable d (Values.object_get es key) b
    entries_total empty h s key k d b = absurd k
    entries_total (entry name v es) (h, all) s key k d b =
        elim (Bool-cases (Values.same_key name key)) [
          | inl same ↦ rw same (prints_total v h s d b)
          | inr other ↦ rw other (entries_total es all s key (behind name v es key other k) d b)
        ]

  -- `value_buffer_encode` ends on every value that has no undefined part, returns true, and what it
  -- appends is the JSON text of the value by the rules of `Prints`, which write out the words, the
  -- brackets, the commas and colons, and with `pretty` the line and the indentation of every element;
  -- `qsort` gives only keys that it was given.
  pub buffer_encode_lem :
      (v : Value) (b : List ℕ)
      → IsDefined v
      → IsSort sort
      → (t : List ℕ) × (fuel : ℕ) × Prints pretty ascii print sort 0 v b t
        × (Encode.buffer_encode pretty ascii print sort fuel b v ≡ some (t, true))
  unfolding Encode.buffer_encode Encode.run
  buffer_encode_lem v b h s =
      let (t, p) = prints_total v h s 0 b in
      let (w, (k, e)) = values_reach pretty ascii print sort p [] refl in (t, k + 2, p, e 2)
