-- ===== src/Map/Inserting.antt =====
-- `map_insert` as an operation of a finite map, with the rehash that it may need.
use libreactorng.Prelude.{
  suc, ◌+◌, ◌*◌, ◌^◌, ◌≤◌, ◌≡◌, ◌∙◌, refl, sym, ap, false, Option, none, some, if◌then◌else◌, ◌>>=◌,
  get_elem?-set_cases, arith, inl, inr, subst,
}
use libreactorng.Prelude.Words.{add64}
use libreactorng.Map
use libreactorng.Map.{Map}
use libreactorng.Map.Interface.{Callbacks, IsLawful}
use libreactorng.Map.Lookup.{lookup}
use libreactorng.Map.Placing.{placed}
use libreactorng.Map.Light
use libreactorng.Map.Rehashing
use libreactorng.Map.Rehashing.{IsSound, IsReserved}

-- What a map with the answer `before` for an equal element answers behind the insertion.
abbrev pub inserted : {A B : Type 0} → Option A → (new old : B) → B
inserted none new old = new
inserted (some _) new old = old

module _ {E : Type 0} (calls : Callbacks E) (laws : IsLawful calls) where
  open calls use {empty, vacant, equal, hash}

  -- The result of an insertion.
  pub record IsInserted (P : E → Type 0) (map : Map E) (element : E) (new : Map E) (o : Option E)
      : Type 0 where
    pub sound : IsSound calls laws P new
    pub released : o ≡ inserted (lookup calls map element) none (some element)
    pub size :
        Map.size calls new
        ≡ inserted (lookup calls map element) (suc (Map.size calls map)) (Map.size calls map)
    pub answers :
        (x : E)
        → lookup calls new x
          ≡ inserted
              (lookup calls map element)
              (if equal element x then some element else lookup calls map x)
              (lookup calls map x)

  insert_of :
      (P : E → Type 0) (map m : Map E) (element : E) (before : Option E)
      → IsReserved calls laws P map m
      → lookup calls map element ≡ before
      → vacant element ≡ false
      → P element
      → (new : Map E) × (o : Option E) × (Map.place calls m element ≡ some (new, o))
        × IsInserted P map element new o
  unfolding Map.size
  insert_of P map m element none r before real each =
      let v = r.sound in
      let (p, placing, t, probed, counted, room, looks) =
        Light.place-absent calls laws m element v.table v.probed v.counted real r.light
          (r.answers element ∙ before) in
      let one_more : add64 m.elements_count 1 ≡ suc map.elements_count =
        omega (arith, r.light, v.table.small, r.count) in
      (
        placed calls m element p,
        none,
        placing,
        record {
          sound = record {
            table = t;
            probed = probed;
            counted = counted;
            half = omega (arith, r.light, one_more, r.count);
            each = λ q e got. elim (get_elem?-set_cases m.elements p element q e got) [
              | inl (here, same) ↦ subst P same each
              | inr old ↦ v.each q e old
            ];
          };
          released = ap (λ l. inserted l none (some element)) (sym before);
          size =
              one_more
              ∙ ap (λ l. inserted l (suc map.elements_count) map.elements_count) (sym before);
          answers = λ x.
              looks x
              ∙ ap (λ l. if equal element x then some element else l) (r.answers x)
              ∙ ap
                  (λ l.
                    inserted l (if equal element x then some element else lookup calls map x)
                      (lookup calls map x))
                  (sym before);
        },
      )
  insert_of P map m element (some old) r before real each =
      let v = r.sound in
      let room = Rehashing.room_sound calls laws P m v in
      (
        m,
        some element,
        Light.place-present calls m element old v.table room (r.answers element ∙ before),
        record {
          sound = v;
          released = ap (λ l. inserted l none (some element)) (sym before);
          size =
              r.count
              ∙ ap (λ l. inserted l (suc map.elements_count) map.elements_count) (sym before);
          answers = λ x.
              r.answers x
              ∙ ap
                  (λ l.
                    inserted l (if equal element x then some element else lookup calls map x)
                      (lookup calls map x))
                  (sym before);
        },
      )

  -- In a well-formed table that is at most half full and in which `P` holds of the element at every
  -- place, an element that is not vacant, and fewer than 2 ^ 62 elements: the insertion succeeds,
  -- with the rehash that it may need. When the table has no equal element, the new one is added: the
  -- look-up of an `x` equal to it gives it, every other look-up gives what it gave, and nothing is
  -- released. When it has one, that stays: every look-up gives what it gave, and the new element is
  -- released. The new table is well formed, at most half full and counts its elements, and `P` holds
  -- of the element at every place, if it holds of the empty and of the new element.
  pub lookup-insert :
      (P : E → Type 0) (map : Map E) (element : E)
      → IsSound calls laws P map
      → P empty
      → P element
      → vacant element ≡ false
      → 2 * (map.elements_count + 1) ≤ 2 ^ 63
      → (new : Map E) × (o : Option E) × (Map.insert calls map element ≡ some (new, o))
        × IsInserted P map element new o
  unfolding Map.insert Map.insert_within
  lookup-insert P map element v each it real small =
      let (m, reserved, r) = Rehashing.reserve_lem calls laws P map v each small in
      let (new, o, placing, i) =
        insert_of P map m element (lookup calls map element) r refl real it in
      (new, o, ap (λ t. t >>= λ m. Map.place calls m element) reserved ∙ placing, i)
