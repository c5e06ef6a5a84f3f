-- ===== src/Map/Placing.antt =====
-- `map_insert` on a table with room: the element is placed where the probing for it stops, and the
-- table answers as a finite map with one more key.
use libreactorng.Prelude.{
  ℕ, ◌<◌, ◌≡◌, refl, ◌∙◌, ap, subst, true, false, none, some, if◌then◌else◌, length, get_elem?, set,
  arith, Bool-cases, inl, inr, length-set, get_elem?-set, get_elem?-set_other, get_elem?-some,
  get_elem?-set_cases,
}
use libreactorng.Prelude.Words.{add64}
use libreactorng.Map.{Map}
use libreactorng.Map.Interface.{Callbacks, IsLawful}
use libreactorng.Map.Probing
use libreactorng.Map.Probing.{IsTable, HasRoom, Stops, Passed, passes}
use libreactorng.Map.Lookup
use libreactorng.Map.Lookup.{IsProbed}

module _ {E : Type 0} (calls : Callbacks E) where
  open calls use {empty, vacant, equal, hash}

  -- The table with an element in a place that was vacant.
  abbrev pub placed : Map E → E → ℕ → Map E
  placed map element p = record map {
    elements = set map.elements p element;
    elements_count = add64 map.elements_count 1;
  }

  module _ (laws : IsLawful calls) where
    passes-equal :
        (x y e : E) → equal x y ≡ true → passes calls x e ≡ true → passes calls y e ≡ true
    passes-equal x y e same pass = elim (Bool-cases (equal e y)) [
      | inl both ↦ let other = laws.equal_trans e y x both (laws.equal_sym x y same) in ground arith
      | inr apart ↦ ground arith
    ]

  module _ (laws : IsLawful calls) (map : Map E) (t : IsTable map) (probed : IsProbed calls map)
      (element : E) (real : vacant element ≡ false) (d p : ℕ)
      (s : Stops calls map element (hash element) d p) (free : vacant s.test ≡ true) where
    within : p < length map.elements
    within = get_elem?-some map.elements p s.test s.holds

    at_place : get_elem? (placed map element p).elements p ≡ some element
    at_place = get_elem?-set map.elements p element within

    full_free : (q : ℕ) (e : E) → p ≡ q → get_elem? map.elements q ≡ some e → vacant e ≡ false → ⊥
    full_free q e same got full =
        let got_p : get_elem? map.elements p ≡ some e = ap (get_elem? map.elements) same ∙ got in
        ground (arith, got_p, s.holds)

    elsewhere :
        (q : ℕ) (e : E)
        → get_elem? map.elements q ≡ some e
        → vacant e ≡ false
        → get_elem? (placed map element p).elements q ≡ some e
    elsewhere q e got full =
        get_elem?-set_other map.elements p q element (λ same. absurd (full_free q e same got full))
        ∙ got

    pub placed-IsTable : IsTable (placed map element p)
    placed-IsTable = record {
      bits = t.bits;
      power = t.power;
      small = t.small;
      places = length-set map.elements p element ∙ t.places;
    }

    kept :
        (x y : E)
        → equal x y ≡ true
        → (q : ℕ) (e : E) → get_elem? map.elements q ≡ some e
        → passes calls x e ≡ true
        → (get_elem? (placed map element p).elements q ≡ some e) × (passes calls y e ≡ true)
    kept x y same q e got pass =
        (elsewhere q e got (ground arith), passes-equal laws x y e same pass)

    -- The probing for an element equal to the placed one ends with it.
    finds_placed :
        (x : E) → equal element x ≡ true → Stops calls (placed map element p) x (hash x) d p
    finds_placed x same =
        subst (λ h. Stops calls (placed map element p) x h d p) (laws.hash-equal element x same)
          (Lookup.Stops-moved calls map (placed map element p) element x (hash element) d p refl
            (kept element x same) s element at_place (ground arith))

    -- The probing for a stored element ends where it did.
    finds_old :
        (x : E) (d' q : ℕ)
        → (s' : Stops calls map x (hash x) d' q) → vacant s'.test ≡ false
        → Stops calls (placed map element p) x (hash x) d' q
    finds_old x d' q s' full =
        Lookup.Stops-moved calls map (placed map element p) x x (hash x) d' q refl
          (λ q' e got pass. (elsewhere q' e got (ground arith), pass)) s' s'.test
          (elsewhere q s'.test s'.holds full) s'.stops

    pub placed-IsProbed : IsProbed calls (placed map element p)
    placed-IsProbed q e got full = elim (get_elem?-set_cases map.elements p element q e got) [
      | inl (same, it) ↦ (
        d,
        subst (λ a. Stops calls (placed map element p) a (hash a) d q) it
            (subst (Stops calls (placed map element p) element (hash element) d) same
              (finds_placed element (laws.equal_refl element))),
      )
      | inr old ↦
          let (d', s') = probed q e old full in
          (d', finds_old e d' q s' (ground (arith, s'.holds, old)))
    ]

    -- In the old table nothing equal to an element stands where its probing does not stop.
    not_stored :
        (x y : E) (d' q q' : ℕ)
        → (s' : Stops calls map x (hash x) d' q) → vacant s'.test ≡ true
        → get_elem? map.elements q' ≡ some y
        → vacant y ≡ false
        → equal y x ≡ true
        → ⊥
    not_stored x y d' q q' s' empty_there got full same =
        let (k, old) = probed q' y got full in
        let moved =
          subst (λ h. Stops calls map x h k q') (laws.hash-equal y x same)
            (Lookup.Stops-moved calls map map y x (hash y) k q' refl
              (λ r e there pass. (there, passes-equal laws y x e same pass)) old y got
              (ground arith)) in
        let q-q' = Lookup.Stops-unique calls map x (hash x) d' q k q' s' moved in
        let got_q : get_elem? map.elements q ≡ some y = ap (get_elem? map.elements) q-q' ∙ got in
        ground (arith, got_q, s'.holds)

    lookup_absent :
        (x : E) (d' q : ℕ)
        → equal element x ≡ false
        → HasRoom calls (placed map element p)
        → (s' : Stops calls map x (hash x) d' q) → vacant s'.test ≡ true
        → Lookup.lookup calls (placed map element p) x ≡ none
    lookup_absent x d' q apart r' s' none_there =
        let new = placed map element p in
        let (k, q', at_x, s'') = Probing.at_lem calls new x placed-IsTable r' in
        let after = Lookup.lookup-Stops calls new x k q' placed-IsTable r' s'' in
        elim (Bool-cases (vacant s''.test)) [
          | inl it ↦ ground (arith, after)
          | inr full ↦
              let same : equal s''.test x ≡ true = ground (arith, s''.stops) in
              elim (get_elem?-set_cases map.elements p element q' s''.test s''.holds) [
                | inl (here, it) ↦
                    let same' : equal element x ≡ true = ap (λ a. equal a x) it ∙ same in
                    ground arith
                | inr old ↦ absurd (not_stored x s''.test d' q q' s' none_there old full same)
              ]
        ]

    -- What the table answers after the placing.
    pub lookup_lem :
        (x : E)
        → HasRoom calls map
        → HasRoom calls (placed map element p)
        → Lookup.lookup calls (placed map element p) x
          ≡ (if equal element x then some element else Lookup.lookup calls map x)
    lookup_lem x r r' = elim (Bool-cases (equal element x)) [
      | inl same ↦
          let s' = finds_placed x same in
          let found = Lookup.lookup-Stops calls (placed map element p) x d p placed-IsTable r' s' in
          ground (arith, found, s'.holds, at_place)
      | inr apart ↦
          let (d', q, at_x, s') = Probing.at_lem calls map x t r in
          let before = Lookup.lookup-Stops calls map x d' q t r s' in
          elim (Bool-cases (vacant s'.test)) [
            | inr full ↦
                let old = finds_old x d' q s' full in
                let after =
                  Lookup.lookup-Stops calls (placed map element p) x d' q placed-IsTable r' old in
                ground (arith, before, after, old.holds, elsewhere q s'.test s'.holds full)
            | inl none_there ↦ ground (arith, before, lookup_absent x d' q apart r' s' none_there)
          ]
    ]
