-- ===== src/Map/Light.antt =====
-- `map_insert` on a table that needs no rehash for one more element: the table answers the new key
-- with the element, and every other key as before.
use libreactorng.Prelude.{
  Bool-cases, suc, ap, ◌<◌, ◌+◌, ◌*◌, ◌^◌, sym, ℕ, ◌≤◌, ◌≡◌, ◌≢◌, ◌∙◌, true, false, none, some,
  if◌then◌else◌, get_elem?, arith, inl, inr, lt_or_ge, get_elem?-set_other,
}
use libreactorng.Prelude.Words.{add64, mul64}
use libreactorng.Map
use libreactorng.Map.{Map}
use libreactorng.Map.Interface.{Callbacks, IsLawful}
use libreactorng.Map.Probing
use libreactorng.Map.Probing.{IsTable, HasRoom, Stops}
use libreactorng.Map.Placing
use libreactorng.Map.Counting
use libreactorng.Map.Counting.{IsCounted}
use libreactorng.Map.Placing.{placed}
use libreactorng.Map.Lookup
use libreactorng.Map.Lookup.{IsProbed, lookup}

module _ {E : Type 0} (calls : Callbacks E) where
  open calls use {empty, vacant, equal, hash}

  -- Two places are vacant.
  pub record HasRooms (map : Map E) : Type 0 where
    pub first : HasRoom calls map
    pub second : HasRoom calls map
    pub apart : first.place ≢ second.place

  room_left :
      (map : Map E) (element : E) (p : ℕ)
      → (r : HasRoom calls map) → p ≢ r.place
      → HasRoom calls (placed calls map element p)
  room_left map element p r other = record {
    place = r.place;
    within = r.within;
    room = r.room;
    there = get_elem?-set_other map.elements p r.place element other ∙ r.there;
    free = r.free;
  }

  rooms_left :
      (map : Map E) (element : E) (p : ℕ)
      → HasRooms map
      → HasRoom calls (placed calls map element p)
  rooms_left map element p r = elim (lt_or_ge p r.first.place) [
    | inl less ↦ room_left map element p r.first (λ e. omega (arith, e, less))
    | inr more ↦ elim (lt_or_ge r.first.place p) [
      | inl less ↦ room_left map element p r.first (λ e. omega (arith, e, less))
      | inr more' ↦
          let same : r.first.place ≡ p = omega (arith, more, more') in
          room_left map element p r.second (λ e. r.apart (same ∙ e))
    ]
  ]

  -- With room, an insertion does not rehash.
  pub insert_within-place :
      (depth : ℕ) (map : Map E) (element : E)
      → mul64 (add64 map.elements_count 1) 2 ≤ map.elements_capacity
      → Map.insert_within calls (suc depth) map element ≡ Map.place calls map element
  unfolding Map.insert_within Map.reserve_by
  insert_within-place depth map element light = ground arith

  place-vacant :
      (map : Map E) (element : E) (p : ℕ) (test : E)
      → Map.at calls map element ≡ some p
      → get_elem? map.elements p ≡ some test
      → vacant test ≡ true
      → Map.place calls map element ≡ some (placed calls map element p, none)
  unfolding Map.place
  place-vacant map element p test found holds free = ground arith

  rooms_counted :
      (map : Map E)
      → IsTable map
      → IsCounted calls map
      → 2 * (map.elements_count + 1) ≤ map.elements_capacity
      → HasRooms map
  rooms_counted map t counted light =
      let (p, e, got, free, q, e', got', free', order, less) =
        Counting.two_vacant calls map.elements (omega (arith, t.places, counted, light)) in
      record {
        first = record {
          place = p;
          within = omega (arith, order, less, t.places);
          room = e;
          there = got;
          free = free;
        };
        second = record {
          place = q;
          within = omega (arith, less, t.places);
          room = e';
          there = got';
          free = free';
        };
        apart = λ same. omega (arith, same, order);
      }

  pub room_counted :
      (map : Map E)
      → IsTable map
      → IsCounted calls map
      → 2 * (map.elements_count + 1) ≤ map.elements_capacity
      → HasRoom calls map
  room_counted map t counted light = (rooms_counted map t counted light).first

  placed-IsCounted :
      (map : Map E) (element : E) (p : ℕ) (test : E)
      → map.elements_count < 2 ^ 63
      → IsCounted calls map
      → get_elem? map.elements p ≡ some test
      → vacant test ≡ true
      → vacant element ≡ false
      → IsCounted calls (placed calls map element p)
  placed-IsCounted map element p test small counted got free real =
      let next : add64 map.elements_count 1 ≡ suc map.elements_count = omega (arith, small) in
      next
      ∙ ap suc counted
      ∙ sym (Counting.occupied-set calls map.elements p test element got free real)

  -- The place of the new element.
  pub place-absent :
      (laws : IsLawful calls) (map : Map E) (element : E)
      → IsTable map
      → IsProbed calls map
      → IsCounted calls map
      → vacant element ≡ false
      → 2 * (map.elements_count + 1) ≤ map.elements_capacity
      → lookup calls map element ≡ none
      → (p : ℕ) × (Map.place calls map element ≡ some (placed calls map element p, none))
        × IsTable (placed calls map element p)
        × IsProbed calls (placed calls map element p)
        × IsCounted calls (placed calls map element p)
        × HasRoom calls (placed calls map element p)
        × ((x : E)
            → lookup calls (placed calls map element p) x
              ≡ (if equal element x then some element else lookup calls map x))
  place-absent laws map element t probed counted real light absent =
      let rooms = rooms_counted map t counted light in
      let (d, p, found, s) = Probing.at_lem calls map element t rooms.first in
      let free : vacant s.test ≡ true =
        ground (arith, absent, Lookup.lookup-Stops calls map element d p t rooms.first s) in
      (
        p,
        place-vacant map element p s.test found s.holds free,
        Placing.placed-IsTable calls laws map t probed element real d p s free,
        Placing.placed-IsProbed calls laws map t probed element real d p s free,
        placed-IsCounted map element p s.test (omega (arith, light, t.small)) counted s.holds free
            real,
        rooms_left map element p rooms,
        λ x.
            Placing.lookup_lem calls laws map t probed element real d p s free x rooms.first
              (rooms_left map element p rooms),
      )

  -- An element that is stored stays, and the new one is released.
  pub place-present :
      (map : Map E) (element old : E)
      → IsTable map
      → HasRoom calls map
      → lookup calls map element ≡ some old
      → Map.place calls map element ≡ some (map, some element)
  unfolding Map.place
  place-present map element old t room present =
      let (d, p, found, s) = Probing.at_lem calls map element t room in
      let looked = Lookup.lookup-Stops calls map element d p t room s in
      elim (Bool-cases (vacant s.test)) [
        | inl free ↦ absurd (ground (arith, looked, free, present))
        | inr full ↦ ground (arith, found, s.holds, full)
      ]
