-- ===== src/Map/Lookup.antt =====
-- What `map_at` answers, as a look-up: the element of the table that is equal to a given one. The
-- probing for an element stops at one place.
use libreactorng.Prelude.{
  ℕ, ◌+◌, ◌%◌, ◌≡◌, ◌∙◌, ap, sym, true, false, Option, none, some, if◌then◌else◌, ◌>>=◌, get_elem?,
  arith, inl, inr, lt_or_ge,
}
use libreactorng.Map
use libreactorng.Map.{Map}
use libreactorng.Map.Interface.{Callbacks}
use libreactorng.Map.Probing
use libreactorng.Map.Probing.{IsTable, HasRoom, Stops, Passed, passes}

module _ {E : Type 0} (calls : Callbacks E) where
  open calls use {empty, vacant, equal, hash}

  -- The element of the table that is equal to a given one, as `map_at` gives it.
  unfoldable pub lookup : Map E → E → Option E
  unfolding Map.at
  lookup map element = Map.at calls map element >>= λ i.
      get_elem? map.elements i >>= λ test. if vacant test then none else some test

  -- Every stored element is where the probing for it stops.
  abbrev pub IsProbed : Map E → Type 0
  IsProbed map =
      (p : ℕ) (e : E)
      → get_elem? map.elements p ≡ some e
      → vacant e ≡ false
      → (d : ℕ) × Stops calls map e (hash e) d p

  clash :
      (map : Map E) (element : E) (p : ℕ) (e e' : E)
      → get_elem? map.elements p ≡ some e
      → get_elem? map.elements p ≡ some e'
      → passes calls element e ≡ true
      → passes calls element e' ≡ false
      → ⊥
  clash map element p e e' got got' pass stop = ground arith

  pub Stops-unique :
      (map : Map E) (element : E) (i d p d' p' : ℕ)
      → Stops calls map element i d p
      → Stops calls map element i d' p'
      → p ≡ p'
  Stops-unique map element i d p d' p' s s' = elim (lt_or_ge d d') [
    | inl less ↦
        let (e, got, pass) = s'.before d less in
        absurd (
          clash map element p e s.test (ap (get_elem? map.elements) (sym s.here) ∙ got) s.holds pass
            s.stops)
    | inr more ↦ elim (lt_or_ge d' d) [
      | inl less ↦
          let (e, got, pass) = s.before d' less in
          absurd (
            clash map element p' e s'.test (ap (get_elem? map.elements) (sym s'.here) ∙ got)
              s'.holds pass s'.stops)
      | inr more' ↦
          let same : d ≡ d' = omega (arith, more, more') in
          sym s.here ∙ ap (λ x. (i + x) % map.elements_capacity) same ∙ s'.here
    ]
  ]

  -- A table with the same capacity and the same elements on the way stops at the same place.
  pub Stops-moved :
      (map new : Map E) (x y : E) (i d p : ℕ)
      → new.elements_capacity ≡ map.elements_capacity
      → ((q : ℕ) (e : E)
          → get_elem? map.elements q ≡ some e
          → passes calls x e ≡ true
          → (get_elem? new.elements q ≡ some e) × (passes calls y e ≡ true))
      → Stops calls map x i d p
      → (test : E) → get_elem? new.elements p ≡ some test
      → passes calls y test ≡ false
      → Stops calls new y i d p
  Stops-moved map new x y i d p same kept s test holds stops = record {
    here = ap (λ c. (i + d) % c) same ∙ s.here;
    test = test;
    holds = holds;
    stops = stops;
    before = λ k less.
        let (e, got, pass) = s.before k less in
        let (got', pass') = kept ((i + k) % map.elements_capacity) e got pass in
        (e, ap (λ c. get_elem? new.elements ((i + k) % c)) same ∙ got', pass');
  }

  pub lookup-Stops :
      (map : Map E) (element : E) (d p : ℕ)
      → IsTable map
      → HasRoom calls map
      → (s : Stops calls map element (hash element) d p)
      → lookup map element ≡ (if vacant s.test then none else some s.test)
  unfolding lookup
  lookup-Stops map element d p t r s =
      let (d', p', found, s') = Probing.at_lem calls map element t r in
      let same : p' ≡ p = Stops-unique map element (hash element) d' p' d p s' s in
      let at_p : Map.at calls map element ≡ some p = found ∙ ap some same in
      ground (arith, at_p, s.holds)
