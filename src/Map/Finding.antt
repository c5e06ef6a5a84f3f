-- ===== src/Map/Finding.antt =====
-- The look-up of a table as a search through its places.
use libreactorng.Prelude.{
  ℕ, zero, suc, ◌≡◌, ◌∙◌, refl, sym, ap, subst, true, false, not, Option, none, some, List, [], ◌∷◌,
  ◌&&◌, if◌then◌else◌, get_elem?, arith, inl, inr, Bool-cases,
}
use libreactorng.Map.{Map}
use libreactorng.Map.Interface.{Callbacks, IsLawful}
use libreactorng.Map.Probing
use libreactorng.Map.Probing.{IsTable, HasRoom, Stops}
use libreactorng.Map.Lookup
use libreactorng.Map.Lookup.{IsProbed, lookup}

abbrev pub or_else : {A : Type 0} → Option A → Option A → Option A
or_else none b = b
or_else (some a) b = some a

module _ {E : Type 0} (calls : Callbacks E) where
  open calls use {empty, vacant, equal, hash}

  -- The last element of the list that is equal to a given one.
  unfoldable pub find : List E → E → Option E
  find [] x = none
  find (e ∷ es) x =
      let rest = find es x in or_else rest (if not (vacant e) && equal e x then some e else none)

  -- An element of the list, at its place.
  pub record Holds (es : List E) (e : E) : Type 0 where
    pub place : ℕ
    pub there : get_elem? es place ≡ some e
    pub full : vacant e ≡ false

  further : (e : E) (es : List E) (y : E) → Holds es y → Holds (e ∷ es) y
  further e es y h = record { place = suc h.place; there = h.there; full = h.full }

  abbrev Finds : List E → E → Type 0
  Finds es x = (y : E) → find es x ≡ some y → Holds es y × (equal y x ≡ true)

  found_behind :
      (e : E) (es : List E) (x y : E) (r : Option E)
      → Finds es x
      → find es x ≡ r
      → find (e ∷ es) x ≡ some y
      → Holds (e ∷ es) y × (equal y x ≡ true)
  unfolding find
  found_behind e es x y (some z) behind rest h =
      let same : z ≡ y = ground (arith, rest, h) in
      let (held, equals) = behind z rest in
      (further e es y (subst (Holds es) same held), ap (λ a. equal a x) (sym same) ∙ equals)
  found_behind e es x y none behind rest h = elim (Bool-cases (not (vacant e) && equal e x)) [
    | inl hit ↦
        let same : e ≡ y = ground (arith, rest, h, hit) in
        (
          record {
            place = 0;
            there = ap some same;
            full = ap vacant (sym same) ∙ ground (arith, hit);
          },
          ap (λ a. equal a x) (sym same) ∙ ground (arith, hit),
        )
    | inr miss ↦ absurd (ground (arith, rest, h, miss))
  ]

  find-some : (es : List E) (x : E) → Finds es x
  unfolding find
  find-some [] x y h = absurd (ground (arith, h))
  find-some (e ∷ es) x y h = found_behind e es x y (find es x) (find-some es x) refl h

  -- What is found nowhere is not there.
  find-none :
      (es : List E) (x : E)
      → find es x ≡ none
      → (p : ℕ) (e : E) → get_elem? es p ≡ some e
      → vacant e ≡ false
      → equal e x ≡ false
  unfolding find
  find-none [] x h p e got full = absurd (ground (arith, got))
  find-none (a ∷ es) x h zero e got full = ground (arith, h, got, full)
  find-none (a ∷ es) x h (suc p) e got full =
      let rest : find es x ≡ none = ground (arith, h) in find-none es x rest p e got full

  module _ (laws : IsLawful calls) (map : Map E) (t : IsTable map) (r : HasRoom calls map) where
    -- A look-up gives an element that is there.
    pub lookup-some :
        (x y : E) → lookup calls map x ≡ some y → Holds map.elements y × (equal y x ≡ true)
    lookup-some x y h =
        let (d, p, found, s) = Probing.at_lem calls map x t r in
        let looked = Lookup.lookup-Stops calls map x d p t r s in
        elim (Bool-cases (vacant s.test)) [
          | inl free ↦ absurd (ground (arith, looked, free, h))
          | inr full ↦
              let same : s.test ≡ y = ground (arith, looked, full, h) in
              (
                record {
                  place = p;
                  there = s.holds ∙ ap some same;
                  full = ap vacant (sym same) ∙ full;
                },
                ap (λ a. equal a x) (sym same) ∙ ground (arith, s.stops, full),
              )
        ]

    passes-equal :
        (x y e : E)
        → equal x y ≡ true
        → Probing.passes calls x e ≡ true
        → Probing.passes calls y e ≡ true
    passes-equal x y e same pass = elim (Bool-cases (equal e y)) [
      | inl both ↦ let other = laws.equal_trans e y x both (laws.equal_sym x y same) in ground arith
      | inr apart ↦ ground arith
    ]

    -- What is there is found.
    pub lookup-Holds :
        (x y : E)
        → IsProbed calls map
        → Holds map.elements y
        → equal y x ≡ true
        → lookup calls map x ≡ some y
    lookup-Holds x y probed h same =
        let (k, old) = probed h.place y h.there h.full in
        let moved =
          subst (λ n. Stops calls map x n k h.place) (laws.hash-equal y x same)
            (Lookup.Stops-moved calls map map y x (hash y) k h.place refl
              (λ q e there pass. (there, passes-equal y x e same pass)) old y h.there
              (ground (arith, same))) in
        let looked = Lookup.lookup-Stops calls map x k h.place t r moved in
        let it : moved.test ≡ y = ground (arith, moved.holds, h.there) in
        ground (arith, looked, it, h.full)

    -- Two equal elements stand at one place.
    pub one_place :
        IsProbed calls map
        → (x y : E) (p q : ℕ) → get_elem? map.elements p ≡ some x
        → get_elem? map.elements q ≡ some y
        → vacant x ≡ false
        → vacant y ≡ false
        → equal x y ≡ true
        → p ≡ q
    one_place probed x y p q got got' full full' same =
        let (k, s) = probed p x got full in
        let (k', s') = probed q y got' full' in
        let moved =
          subst (λ n. Stops calls map y n k p) (laws.hash-equal x y same)
            (Lookup.Stops-moved calls map map x y (hash x) k p refl
              (λ r e there pass. (there, passes-equal x y e same pass)) s x got
              (ground (arith, same))) in
        Lookup.Stops-unique calls map y (hash y) k p k' q moved s'

    find_of :
        (x : E) (f l : Option E)
        → IsProbed calls map
        → find map.elements x ≡ f
        → lookup calls map x ≡ l
        → l ≡ f
    find_of x (some y) l probed found looked =
        let (held, same) = find-some map.elements x y found in
        sym looked ∙ lookup-Holds x y probed held same
    find_of x none none probed found looked = refl
    find_of x none (some y) probed found looked =
        let (held, same) = lookup-some x y looked in
        let other = find-none map.elements x found held.place y held.there held.full in
        absurd (ground (arith, same, other))

    -- The look-up is the search.
    pub lookup-find : (x : E) → IsProbed calls map → lookup calls map x ≡ find map.elements x
    lookup-find x probed = find_of x (find map.elements x) (lookup calls map x) probed refl refl
