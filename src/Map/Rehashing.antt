-- ===== src/Map/Rehashing.antt =====
-- `map_rehash` and `map_reserve`: the elements of a table in a larger one.
use native.Mathlib.Nat.{one-le-pow, pow-le-pow_right}
use libreactorng.Prelude.{
  ℕ, zero, suc, ◌+◌, ◌*◌, ◌-◌, ◌^◌, ◌≤◌, ◌<◌, ◌≡◌, ◌∙◌, refl, sym, ap, subst, true, false, Option,
  none, some, List, [], ◌∷◌, if◌then◌else◌, replicate, get_elem?, arith, inl, inr, Bool-cases,
  lt_or_ge, length-replicate, get_elem?-set_cases, lt→ltb, le→ltb,
}
use libreactorng.Prelude.Words.{add64, sub64, mul64}
use libreactorng.Roundup.{fill_all-power}
use libreactorng.Map
use libreactorng.Map.{Map}
use libreactorng.Map.Interface.{Callbacks, IsLawful}
use libreactorng.Map.Probing
use libreactorng.Map.Probing.{IsTable, HasRoom, Stops}
use libreactorng.Map.Lookup
use libreactorng.Map.Lookup.{IsProbed, lookup}
use libreactorng.Map.Counting
use libreactorng.Map.Counting.{occupied, IsCounted}
use libreactorng.Map.Placing.{placed}
use libreactorng.Map.Empty.{get_elem?-replicate}
use libreactorng.Map.Finding
use libreactorng.Map.Finding.{find, Holds, or_else}
use libreactorng.Map.Light

module _ {E : Type 0} (calls : Callbacks E) (laws : IsLawful calls) where
  open calls use {empty, vacant, equal, hash}

  -- What a search gives behind another one.
  or_else-none : (o : Option E) → or_else o none ≡ o
  or_else-none none = refl
  or_else-none (some e) = refl

  or_else_assoc : (a b c : Option E) → or_else (or_else a b) c ≡ or_else a (or_else b c)
  or_else_assoc none b c = refl
  or_else_assoc (some e) b c = refl

  find-vacant :
      (e : E) (es : List E) (x : E) → vacant e ≡ true → find calls (e ∷ es) x ≡ find calls es x
  unfolding find
  find-vacant e es x free = ground (arith, free, or_else-none (find calls es x))

  find-full :
      (e : E) (es : List E) (x : E) (before : Option E)
      → vacant e ≡ false
      → or_else (find calls es x) (if equal e x then some e else before)
        ≡ or_else (find calls (e ∷ es) x) before
  unfolding find
  find-full e es x before full = elim (Bool-cases (equal e x)) [
    | inl same ↦ ground (arith, full, same, or_else_assoc (find calls es x) (some e) before)
    | inr other ↦ ground (arith, full, other, or_else_assoc (find calls es x) none before)
  ]

  -- Every element at a place.
  abbrev Each : (E → Type 0) → List E → Type 0
  Each P es = (p : ℕ) (e : E) → get_elem? es p ≡ some e → P e

  -- The elements that wait for their insertion: none of them is there, and no two are equal.
  record Waits (new : Map E) (es : List E) : Type 0 where
    room : 2 * (new.elements_count + occupied calls es + 1) ≤ new.elements_capacity
    absent : Each (λ e. vacant e ≡ false → lookup calls new e ≡ none) es
    apart :
        (p q : ℕ) (a b : E)
        → get_elem? es p ≡ some a
        → get_elem? es q ≡ some b
        → vacant a ≡ false
        → vacant b ≡ false
        → equal a b ≡ true
        → p ≡ q

  differs :
      (e : E) (es : List E) (new : Map E)
      → Waits new (e ∷ es)
      → vacant e ≡ false
      → (q : ℕ) (a : E) → get_elem? es q ≡ some a
      → vacant a ≡ false
      → equal e a ≡ false
  differs e es new w full q a got real = elim (Bool-cases (equal e a)) [
    | inl same ↦ absurd (omega (arith, w.apart 0 (suc q) e a refl got full real same))
    | inr other ↦ other
  ]

  record Filled (P : E → Type 0) (new : Map E) (es : List E) : Type 0 where
    map : Map E
    done : Map.reinsert calls (Map.insert_within calls 1) new es ≡ some map
    table : IsTable map
    probed : IsProbed calls map
    counted : IsCounted calls map
    capacity : map.elements_capacity ≡ new.elements_capacity
    count : map.elements_count ≡ new.elements_count + occupied calls es
    each : Each P map.elements
    answers : (x : E) → lookup calls map x ≡ or_else (find calls es x) (lookup calls new x)

  reinsert_lem :
      (P : E → Type 0) (es : List E) (new : Map E)
      → IsTable new
      → IsProbed calls new
      → IsCounted calls new
      → Waits new es
      → Each P new.elements
      → Each (λ e. vacant e ≡ false → P e) es
      → Filled P new es
  unfolding Map.reinsert occupied find
  reinsert_lem P [] new t probed counted w each more = record {
    map = new;
    done = refl;
    table = t;
    probed = probed;
    counted = counted;
    capacity = refl;
    count = omega arith;
    each = each;
    answers = λ x. refl;
  }
  reinsert_lem P (e ∷ es) new t probed counted w each more = elim (Bool-cases (vacant e)) [
    | inl free ↦
        let f =
          reinsert_lem P es new t probed counted
            (record {
              room = ground (arith, w.room, free);
              absent = λ p a got. w.absent (suc p) a got;
              apart = λ p q a b got got' full full' same.
                  omega (arith, w.apart (suc p) (suc q) a b got got' full full' same);
            })
            each (λ p a got. more (suc p) a got) in
        record {
          map = f.map;
          done = ground (arith, free, f.done);
          table = f.table;
          probed = f.probed;
          counted = f.counted;
          capacity = f.capacity;
          count = ground (arith, free, f.count);
          each = f.each;
          answers = λ x.
              f.answers x
              ∙ ap (λ o. or_else o (lookup calls new x)) (sym (find-vacant e es x free));
        }
    | inr full ↦
        let light : 2 * (new.elements_count + 1) ≤ new.elements_capacity =
          ground (arith, w.room, full) in
        let (p, placing, t', probed', counted', room', looks) =
          Light.place-absent calls laws new e t probed counted full light
            (w.absent 0 e refl full) in
        let next = placed calls new e p in
        let one_more : next.elements_count ≡ suc new.elements_count =
          omega (arith, light, t.small) in
        let f =
          reinsert_lem P es next t' probed' counted'
            (record {
              room = ground (arith, w.room, full, one_more);
              absent = λ q a got real.
                  looks a
                  ∙ ground
                      (arith, w.absent (suc q) a got real, differs e es new w full q a got real);
              apart = λ q r a b got got' full' full'' same.
                  omega (arith, w.apart (suc q) (suc r) a b got got' full' full'' same);
            })
            (λ q a got. elim (get_elem?-set_cases new.elements p e q a got) [
              | inl (here, same) ↦ subst P same (more 0 e refl full)
              | inr old ↦ each q a old
            ])
            (λ q a got. more (suc q) a got) in
        let inserted : Map.insert_within calls 1 new e ≡ some (next, none) =
          Light.insert_within-place calls 0 new e (omega (arith, light, t.small)) ∙ placing in
        record {
          map = f.map;
          done = ground (arith, full, inserted, f.done);
          table = f.table;
          probed = f.probed;
          counted = f.counted;
          capacity = f.capacity;
          count = ground (arith, full, one_more, f.count);
          each = f.each;
          answers = λ x.
              f.answers x
              ∙ ap (or_else (find calls es x)) (looks x)
              ∙ find-full e es x (lookup calls new x) full;
        }
  ]

  -- A table that is at most half full; `P` holds of the elements at its places.
  pub record IsSound (P : E → Type 0) (map : Map E) : Type 0 where
    pub table : IsTable map
    pub probed : IsProbed calls map
    pub counted : IsCounted calls map
    pub half : 2 * map.elements_count ≤ map.elements_capacity
    pub each : Each P map.elements

  pub room_sound : (P : E → Type 0) (map : Map E) → IsSound P map → HasRoom calls map
  room_sound P map v =
      let one : 1 ≤ map.elements_capacity =
        omega (arith, v.table.power, one-le-pow v.table.bits 2) in
      let (p, e, got, free, less) =
        Counting.one_vacant calls map.elements
          (omega (arith, v.counted, v.half, v.table.places, one)) in
      record {
        place = p;
        within = omega (arith, less, v.table.places);
        room = e;
        there = got;
        free = free;
      }

  roundup_lem :
      (n : ℕ)
      → 0 < n
      → n ≤ 2 ^ 63
      → (k : ℕ) × (Map.roundup n ≡ 2 ^ k) × (n ≤ 2 ^ k) × (2 ^ k ≤ 2 ^ 63)
  unfolding Map.roundup
  roundup_lem n p h =
      let (k, e, above, least) = fill_all-power (n - 1) (n - 1) (omega arith) (omega arith) in
      let less : sub64 n 1 ≡ n - 1 = omega arith in
      let small : 2 ^ k ≤ 2 ^ 63 = elim (lt_or_ge k 64) [
        | inl low ↦ pow-le-pow_right (omega arith) {i = k} {j = 63} (omega arith)
        | inr high ↦
            absurd
              (omega (arith, least, pow-le-pow_right {n = 2} (omega arith) {i = 64} {j = k} high))
      ] in
      (k, rw less (omega (arith, e, least)), omega (arith, above), small)

  -- The new table of a rehash, before the insertions.
  abbrev blank : ℕ → Map E
  blank n = record { elements = replicate n empty; elements_count = 0; elements_capacity = n }

  blank_free : (n p : ℕ) (e : E) → get_elem? (blank n).elements p ≡ some e → vacant e ≡ true
  blank_free n p e got = ap vacant (get_elem?-replicate n empty p e got) ∙ laws.vacant-empty

  occupied-blank : (n : ℕ) → occupied calls (replicate n empty) ≡ 0
  unfolding occupied
  occupied-blank zero = refl
  occupied-blank (suc n) = ground (arith, laws.vacant-empty, occupied-blank n)

  blank-IsSound : (P : E → Type 0) (k : ℕ) → P empty → 2 ^ k ≤ 2 ^ 63 → IsSound P (blank (2 ^ k))
  blank-IsSound P k each small = record {
    table = record {
      bits = k;
      power = refl;
      small = small;
      places = length-replicate (2 ^ k) empty;
    };
    probed = λ p e got full. absurd (ground (arith, blank_free (2 ^ k) p e got, full));
    counted = sym (occupied-blank (2 ^ k));
    half = omega arith;
    each = λ p e got. subst P (sym (get_elem?-replicate (2 ^ k) empty p e got)) each;
  }

  lookup-blank :
      (P : E → Type 0) (k : ℕ) (x : E)
      → IsSound P (blank (2 ^ k))
      → lookup calls (blank (2 ^ k)) x ≡ none
  lookup-blank P k x v =
      let r = room_sound P (blank (2 ^ k)) v in
      let (d, p, found, s) = Probing.at_lem calls (blank (2 ^ k)) x v.table r in
      let looked = Lookup.lookup-Stops calls (blank (2 ^ k)) x d p v.table r s in
      ground (arith, looked, blank_free (2 ^ k) p s.test s.holds)

  -- A table with room for one more element, and the elements of another one.
  pub record IsReserved (P : E → Type 0) (map m : Map E) : Type 0 where
    pub sound : IsSound P m
    pub count : m.elements_count ≡ map.elements_count
    pub light : 2 * (m.elements_count + 1) ≤ m.elements_capacity
    pub answers : (x : E) → lookup calls m x ≡ lookup calls map x

  rehash_lem :
      (P : E → Type 0) (map : Map E) (n : ℕ)
      → IsSound P map
      → P empty
      → 2 * (map.elements_count + 1) ≤ n
      → n ≤ 2 ^ 63
      → (m : Map E) × (Map.rehash_by calls (Map.insert_within calls 1) map n ≡ some m)
        × IsReserved P map m
  unfolding Map.rehash_by
  rehash_lem P map n v each enough small =
      let (k, power, above, below) = roundup_lem n (omega (arith, enough)) small in
      let b = blank-IsSound P k each below in
      let r = room_sound P map v in
      let f =
        reinsert_lem P map.elements (blank (2 ^ k)) b.table b.probed b.counted
          (record {
            room = omega (arith, enough, above, v.counted);
            absent = λ p e got full. lookup-blank P k e b;
            apart = λ p q a c got got' full full' same.
                Finding.one_place calls laws map v.table r v.probed a c p q got got' full full'
                  same;
          })
          b.each (λ p e got full. v.each p e got) in
      (
        f.map,
        ap (λ c. Map.reinsert calls (Map.insert_within calls 1) (blank c) map.elements) power
            ∙ f.done,
        record {
          sound = record {
            table = f.table;
            probed = f.probed;
            counted = f.counted;
            half = omega (arith, f.count, f.capacity, enough, above, v.counted);
            each = f.each;
          };
          count = omega (arith, f.count, v.counted);
          light = omega (arith, f.count, f.capacity, enough, above, v.counted);
          answers = λ x.
              f.answers x
              ∙ ap (or_else (find calls map.elements x)) (lookup-blank P k x b)
              ∙ or_else-none (find calls map.elements x)
              ∙ sym (Finding.lookup-find calls laws map v.table r x v.probed);
        },
      )

  reserve_short :
      (map : Map E)
      → map.elements_capacity < 2 * (map.elements_count + 1)
      → 2 * (map.elements_count + 1) ≤ 2 ^ 63
      → Map.reserve_by calls (Map.insert_within calls 1) map (add64 map.elements_count 1)
        ≡ Map.rehash_by calls (Map.insert_within calls 1) map (2 * (map.elements_count + 1))
  unfolding Map.reserve_by
  reserve_short map short small =
      let wanted : mul64 (add64 map.elements_count 1) 2 ≡ 2 * (map.elements_count + 1) =
        omega (arith, small) in
      rw wanted (rw (lt→ltb map.elements_capacity (2 * (map.elements_count + 1)) short) refl)

  reserve_enough :
      (map : Map E)
      → 2 * (map.elements_count + 1) ≤ map.elements_capacity
      → 2 * (map.elements_count + 1) ≤ 2 ^ 63
      → Map.reserve_by calls (Map.insert_within calls 1) map (add64 map.elements_count 1) ≡ some map
  unfolding Map.reserve_by
  reserve_enough map enough small =
      let wanted : mul64 (add64 map.elements_count 1) 2 ≡ 2 * (map.elements_count + 1) =
        omega (arith, small) in
      rw wanted (rw (le→ltb map.elements_capacity (2 * (map.elements_count + 1)) enough) refl)

  pub reserve_lem :
      (P : E → Type 0) (map : Map E)
      → IsSound P map
      → P empty
      → 2 * (map.elements_count + 1) ≤ 2 ^ 63
      → (m : Map E) × (Map.reserve_by calls
            (Map.insert_within calls 1)
            map
            (add64 map.elements_count 1)
          ≡ some m)
        × IsReserved P map m
  reserve_lem P map v each small =
      elim (lt_or_ge map.elements_capacity (2 * (map.elements_count + 1))) [
        | inl short ↦
            let (m, done, r) =
              rehash_lem P map (2 * (map.elements_count + 1)) v each (omega arith) small in
            let on : Map.reserve_by calls (Map.insert_within calls 1) map
                  (add64 map.elements_count 1)
                ≡ Map.rehash_by calls (Map.insert_within calls 1) map
                    (2 * (map.elements_count + 1)) =
              reserve_short map short small in
            (m, on ∙ done, r)
        | inr enough ↦ (
          map,
          reserve_enough map enough small,
          record { sound = v; count = refl; light = enough; answers = λ x. refl },
        )
      ]
