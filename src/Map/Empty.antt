-- ===== src/Map/Empty.antt =====
-- `map_construct`: the empty table.
use libreactorng.Prelude.{
  sym, ℕ, zero, suc, ◌≡◌, refl, ◌∙◌, ap, true, none, some, replicate, get_elem?, arith,
}
use libreactorng.Map
use libreactorng.Map.{Map}
use libreactorng.Map.Interface.{Callbacks, IsLawful}
use libreactorng.Map.Probing
use libreactorng.Map.Probing.{IsTable, HasRoom, Stops}
use libreactorng.Map.Lookup
use libreactorng.Map.Lookup.{IsProbed, lookup}
use libreactorng.Map.Counting.{occupied, IsCounted}

pub get_elem?-replicate :
    {A : Type 0} (n : ℕ) (a : A) (i : ℕ) (b : A) → get_elem? (replicate n a) i ≡ some b → b ≡ a
get_elem?-replicate zero a i b h = ground arith
get_elem?-replicate (suc n) a zero b h = ground arith
get_elem?-replicate (suc n) a (suc i) b h = get_elem?-replicate n a i b h

module _ {E : Type 0} (calls : Callbacks E) where
  open calls use {empty, vacant, equal, hash}

  abbrev pub fresh : Map E
  fresh = record { elements = replicate 8 empty; elements_count = 0; elements_capacity = 8 }

  pub fresh-IsTable : IsTable fresh
  fresh-IsTable = record { bits = 3; power = refl; small = omega arith; places = refl }

  fresh_free :
      (laws : IsLawful calls) (p : ℕ) (e : E)
      → get_elem? fresh.elements p ≡ some e
      → vacant e ≡ true
  fresh_free laws p e got = ap vacant (get_elem?-replicate 8 empty p e got) ∙ laws.vacant-empty

  pub fresh-HasRoom : IsLawful calls → HasRoom calls fresh
  fresh-HasRoom laws = record {
    place = 0;
    within = omega arith;
    room = empty;
    there = refl;
    free = laws.vacant-empty;
  }

  occupied-replicate : IsLawful calls → (n : ℕ) → occupied calls (replicate n empty) ≡ 0
  unfolding occupied
  occupied-replicate laws zero = refl
  occupied-replicate laws (suc n) = ground (arith, laws.vacant-empty, occupied-replicate laws n)

  pub fresh-IsCounted : IsLawful calls → IsCounted calls fresh
  fresh-IsCounted laws = sym (occupied-replicate laws 8)

  pub fresh-IsProbed : IsLawful calls → IsProbed calls fresh
  fresh-IsProbed laws p e got full = ground (arith, fresh_free laws p e got)

  roundup_min : Map.roundup Map.elements_capacity_min ≡ 8
  unfolding Map.roundup
  roundup_min = refl

  pub lookup-fresh : IsLawful calls → (x : E) → lookup calls fresh x ≡ none
  lookup-fresh laws x =
      let r = fresh-HasRoom laws in
      let (d, p, found, s) = Probing.at_lem calls fresh x fresh-IsTable r in
      let after = Lookup.lookup-Stops calls fresh x d p fresh-IsTable r s in
      ground (arith, after, fresh_free laws p s.test s.holds)

  -- `map_construct` succeeds: the new table is well formed, counts its elements, has none and no
  -- look-up finds one in it.
  pub construct_lem :
      (laws : IsLawful calls) (x : E)
      → (new : Map E) × (Map.construct calls ≡ some new)
        × IsTable new
        × IsProbed calls new
        × IsCounted calls new
        × (Map.size calls new ≡ 0)
        × (lookup calls new x ≡ none)
  unfolding Map.construct Map.rehash Map.rehash_by Map.reinsert Map.size
  construct_lem laws x = (
    fresh,
    ap
        (λ n.
          some (record { elements = replicate n empty; elements_count = 0; elements_capacity = n }))
        roundup_min,
    fresh-IsTable,
    fresh-IsProbed laws,
    fresh-IsCounted laws,
    refl,
    lookup-fresh laws x,
  )
