-- ===== src/Map/Probing.antt =====
-- The probing of `map_at`: from the hash on it visits the places in turn, round the end of the table,
-- and stops at the first that is vacant or holds an equal element.
use native.Mathlib.Nat.{mod-add-mod, add-mod-mod, add-mod_right, mod-eq_of_lt, mod-lt, one-le-pow}
use libreactorng.Prelude.{
  ℕ, zero, suc, ◌+◌, ◌-◌, ◌%◌, ◌^◌, ◌≤◌, ◌<◌, ◌≡◌, ◌∙◌, ap, sym, subst, Bool, true, false, not,
  some, ◌||◌, length, get_elem?, get_elem?-within, arith, Bool-cases, inl, inr, bit_and,
}
use libreactorng.Prelude.Bits.{bit_and-mask}
use libreactorng.Prelude.Words.{add64, sub64}
use libreactorng.Map
use libreactorng.Map.{Map}
use libreactorng.Map.Interface.{Callbacks}

-- The capacity is a power of two of at most 2 ^ 63, and that many places are there.
pub record IsTable {E : Type 0} (map : Map E) : Type 0 where
  pub bits : ℕ
  pub power : map.elements_capacity ≡ 2 ^ bits
  pub small : map.elements_capacity ≤ 2 ^ 63
  pub places : length map.elements ≡ map.elements_capacity

module _ {E : Type 0} (calls : Callbacks E) where
  open calls use {empty, vacant, equal, hash}

  wrap_lem : (map : Map E) (i : ℕ) → IsTable map → Map.wrap calls map i ≡ i % map.elements_capacity
  wrap_lem map i t =
      let one : 1 ≤ map.elements_capacity = omega (arith, t.power, one-le-pow t.bits 2) in
      let less : sub64 map.elements_capacity 1 ≡ 2 ^ t.bits - 1 = omega (arith, t.power, t.small) in
      ap (bit_and i) less ∙ (bit_and-mask t.bits i ∙ ap (λ c. i % c) (sym t.power))

  -- The probing for an element passes a place, or stops there.
  abbrev pub passes : E → E → Bool
  passes element test = not (vacant test || equal test element)

  abbrev pub Passed : Map E → E → ℕ → Type 0
  Passed map element i =
      (e : E) × (get_elem? map.elements (i % map.elements_capacity) ≡ some e)
      × (passes element e ≡ true)

  -- From `i` on the probing stops at the place `p`, `d` places further, and nowhere before.
  pub record Stops (map : Map E) (element : E) (i d p : ℕ) : Type 0 where
    pub here : (i + d) % map.elements_capacity ≡ p
    pub test : E
    pub holds : get_elem? map.elements p ≡ some test
    pub stops : passes element test ≡ false
    pub before : (k : ℕ) → k < d → Passed map element (i + k)

  next_place :
      (map : Map E) (i k : ℕ)
      → IsTable map
      → (add64 (i % map.elements_capacity) 1 + k) % map.elements_capacity
        ≡ (i + suc k) % map.elements_capacity
  next_place map i k t =
      let c = map.elements_capacity in
      let one : 1 ≤ c = omega (arith, t.power, one-le-pow t.bits 2) in
      let low : i % c < c = mod-lt i one in
      let flat : add64 (i % c) 1 ≡ i % c + 1 = omega (arith, low, t.small) in
      let turn : add64 (i % c) 1 + k ≡ i % c + suc k = omega (arith, flat) in
      ap (λ x. x % c) turn ∙ mod-add-mod i c (suc k)

  -- A place of the table has an element.
  element_at :
      (map : Map E) (i : ℕ)
      → IsTable map
      → (e : E) × (get_elem? map.elements (i % map.elements_capacity) ≡ some e)
  element_at map i t =
      let c = map.elements_capacity in
      let one : 1 ≤ c = omega (arith, t.power, one-le-pow t.bits 2) in
      get_elem?-within map.elements (i % c) (omega (arith, mod-lt i one, t.places))

  module _ (map : Map E) (element : E) (i : ℕ) (t : IsTable map) where
    at_loop-stop :
        (fuel : ℕ) (e : E)
        → get_elem? map.elements (i % map.elements_capacity) ≡ some e
        → passes element e ≡ false
        → Map.at_loop calls (suc fuel) map element i ≡ some (i % map.elements_capacity)
    unfolding Map.at_loop
    at_loop-stop fuel e got stop = ground (arith, wrap_lem map i t, got, stop)

    at_loop-pass :
        (fuel : ℕ) (e : E)
        → get_elem? map.elements (i % map.elements_capacity) ≡ some e
        → passes element e ≡ true
        → Map.at_loop calls (suc fuel) map element i
          ≡ Map.at_loop calls fuel map element (add64 (i % map.elements_capacity) 1)
    unfolding Map.at_loop
    at_loop-pass fuel e got pass = ground (arith, wrap_lem map i t, got, pass)

    Stops-here :
        (e : E)
        → get_elem? map.elements (i % map.elements_capacity) ≡ some e
        → passes element e ≡ false
        → Stops map element i zero (i % map.elements_capacity)
    Stops-here e got stop = record {
      here = ap (λ x. x % map.elements_capacity) (omega arith);
      test = e;
      holds = got;
      stops = stop;
      before = λ k less. absurd (omega (arith, less));
    }

    passed :
        (d : ℕ)
        → Passed map element i
        → ((k : ℕ) → k < d → Passed map element (add64 (i % map.elements_capacity) 1 + k))
        → (k : ℕ) → k < suc d
        → Passed map element (i + k)
    passed d first later zero less = subst (Passed map element) (omega arith) first
    passed d first later (suc k) less =
        let (e, got, pass) = later k (omega (arith, less)) in
        (e, ap (get_elem? map.elements) (sym (next_place map i k t)) ∙ got, pass)

    Stops-later :
        (e : E) (d p : ℕ)
        → get_elem? map.elements (i % map.elements_capacity) ≡ some e
        → passes element e ≡ true
        → Stops map element (add64 (i % map.elements_capacity) 1) d p
        → Stops map element i (suc d) p
    Stops-later e d p got pass s = record {
      here = sym (next_place map i d t) ∙ s.here;
      test = s.test;
      holds = s.holds;
      stops = s.stops;
      before = passed d (e, got, pass) s.before;
    }

  -- A probing that meets a vacant place within its fuel stops, there or before.
  at_loop_lem :
      (fuel : ℕ) (map : Map E) (element : E) (i far : ℕ)
      → IsTable map
      → far < fuel
      → (room : E) → get_elem? map.elements ((i + far) % map.elements_capacity) ≡ some room
      → vacant room ≡ true
      → (d : ℕ) × (p : ℕ) × (Map.at_loop calls fuel map element i ≡ some p)
        × Stops map element i d p
  at_loop_lem zero map element i far t h room there free = absurd (omega arith)
  at_loop_lem (suc fuel) map element i zero t h room there free =
      let here : i + 0 ≡ i = omega arith in
      let got = ap (λ x. get_elem? map.elements (x % map.elements_capacity)) (sym here) ∙ there in
      (
        zero,
        i % map.elements_capacity,
        at_loop-stop map element i t fuel room got (ground arith),
        Stops-here map element i t room got (ground arith),
      )
  at_loop_lem (suc fuel) map element i (suc far) t h room there free =
      let c = map.elements_capacity in
      let (e, got) = element_at map i t in
      elim (Bool-cases (passes element e)) [
        | inr stop ↦ (
          zero,
          i % c,
          at_loop-stop map element i t fuel e got stop,
          Stops-here map element i t e got stop,
        )
        | inl pass ↦
            let (d, p, found, s) =
              at_loop_lem fuel map element (add64 (i % c) 1) far t (omega arith) room
                (ap (get_elem? map.elements) (next_place map i far t) ∙ there) free in
            (
              suc d,
              p,
              at_loop-pass map element i t fuel e got pass ∙ found,
              Stops-later map element i t e d p got pass s,
            )
      ]

  -- Some place of the table is vacant.
  pub record HasRoom (map : Map E) : Type 0 where
    pub place : ℕ
    pub within : place < map.elements_capacity
    pub room : E
    pub there : get_elem? map.elements place ≡ some room
    pub free : vacant room ≡ true

  -- The way from any place to any other, round the end of the table.
  way : (c i q : ℕ) → q < c → (far : ℕ) × (far < c) × ((i + far) % c ≡ q)
  way c i q less =
      let far = (q + (c - i % c)) % c in
      let low : i % c < c = mod-lt i (omega arith) in
      let round : i % c + (q + (c - i % c)) ≡ q + c = omega (arith, low) in
      (
        far,
        mod-lt (q + (c - i % c)) (omega arith),
        add-mod-mod i (q + (c - i % c)) c
            ∙ sym (mod-add-mod i c (q + (c - i % c)))
            ∙ ap (λ x. x % c) round
            ∙ add-mod_right q c
            ∙ mod-eq_of_lt less,
      )

  -- A table with a vacant place: the probing ends, at the first place from the hash on that is vacant
  -- or holds an equal element.
  pub at_lem :
      (map : Map E) (element : E)
      → IsTable map
      → HasRoom map
      → (d : ℕ) × (p : ℕ) × (Map.at calls map element ≡ some p)
        × Stops map element (hash element) d p
  unfolding Map.at
  at_lem map element t r =
      let (far, near, meets) = way map.elements_capacity (hash element) r.place r.within in
      at_loop_lem (suc (length map.elements)) map element (hash element) far t
        (omega (arith, near, t.places)) r.room (ap (get_elem? map.elements) meets ∙ r.there) r.free
