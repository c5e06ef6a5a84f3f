-- ===== src/Map.antt =====
-- src/reactor/map.c and map.h: a table with open addressing and linear probing, whose capacity is a
-- power of two. The elements are opaque: the callbacks of the caller hash them, compare them, and
-- copy them into a place or empty it. A place is an entry of the list `elements`, which stands for
-- `elements + position * element_size`.
pub mod Interface
pub mod Probing
pub mod Lookup
pub mod Placing
pub mod Empty
pub mod Counting
pub mod Light
pub mod Finding
pub mod Rehashing
pub mod Inserting
use libreactorng.Prelude.{
  ℕ, zero, suc, ◌+◌, ◌-◌, ◌*◌, ◌%◌, ◌^◌, Bool, true, false, not, Option, none, some, List, [], ◌∷◌,
  ◌==◌, ltb, leb, if◌then◌else◌, ◌>>=◌, ◌>>◌, ◌&&◌, ◌||◌, length, get_elem?, set, replicate,
  bit_and,
}
use libreactorng.Prelude.Words.{add64, sub64, mul64}
use libreactorng.Roundup.{fill_all}
use Interface.{Callbacks}

unfoldable pub roundup : ℕ → ℕ
unfolding fill_all
roundup s = add64 (fill_all (sub64 s 1)) 1

-- MAP_ELEMENTS_CAPACITY_MIN
abbrev pub elements_capacity_min : ℕ
elements_capacity_min = 8

pub record Map (E : Type 0) : Type 0 where
  pub elements : List E
  pub elements_count : ℕ
  pub elements_capacity : ℕ

module _ {E : Type 0} (calls : Callbacks E) where
  open calls use {empty, vacant, equal, hash}

  -- The elements that `map_release_all` hands to `release`.
  unfoldable pub release_all : List E → List E
  release_all [] = []
  release_all (e ∷ es) = let rest = release_all es in if not (vacant e) then e ∷ rest else rest

  -- `i &= map->elements_capacity - 1`
  abbrev pub wrap : Map E → ℕ → ℕ
  wrap map i = bit_and i (sub64 map.elements_capacity 1)

  -- `while (1)`, on fuel: the place of the element, or the vacant place where the probing stops.
  unfoldable pub at_loop : (fuel : ℕ) → Map E → E → ℕ → Option ℕ
  at_loop zero map element i = none
  at_loop (suc fuel) map element i = get_elem? map.elements (wrap map i) >>= λ test.
      let rest = at_loop fuel map element (add64 (wrap map i) 1) in
      if vacant test || equal test element then some (wrap map i) else rest

  unfoldable pub at : Map E → E → Option ℕ
  at map element = at_loop (suc (length map.elements)) map element (hash element)

  -- `map_insert` behind the call of `map_reserve`: the map, and the element if it is released.
  unfoldable pub place : Map E → E → Option (Map E × Option E)
  place map element = do
    i ← at map element
    test ← get_elem? map.elements i
    if vacant test
        then some (
          record map {
            elements = set map.elements i element;
            elements_count = add64 map.elements_count 1;
          },
          none,
        )
        else some (map, some element)

  -- `for (i = 0; i < map->elements_capacity; i++)` of `map_rehash`, by a given `map_insert`.
  unfoldable pub reinsert :
      (Map E → E → Option (Map E × Option E)) → Map E → List E → Option (Map E)
  reinsert add new [] = some new
  reinsert add new (e ∷ es) =
      (if vacant e then some new else (add new e >>= λ r. some r.0)) >>= λ m. reinsert add m es

  unfoldable pub rehash_by : (Map E → E → Option (Map E × Option E)) → Map E → ℕ → Option (Map E)
  rehash_by add map size =
      reinsert add
        (record {
          elements = replicate (roundup size) empty;
          elements_count = 0;
          elements_capacity = roundup size;
        })
        map.elements

  unfoldable pub reserve_by : (Map E → E → Option (Map E × Option E)) → Map E → ℕ → Option (Map E)
  reserve_by add map size =
      let wanted = mul64 size 2 in
      if ltb map.elements_capacity wanted then rehash_by add map wanted else some map

  -- `map_insert` reserves, which may rehash, which inserts: `depth` bounds how often. The callback
  -- `release` of the inner calls is NULL.
  unfoldable pub insert_within : (depth : ℕ) → Map E → E → Option (Map E × Option E)
  insert_within zero map element = none
  insert_within (suc depth) map element =
      reserve_by (insert_within depth) map (add64 map.elements_count 1) >>= λ m. place m element

  unfoldable pub insert : Map E → E → Option (Map E × Option E)
  insert = insert_within 2

  unfoldable pub rehash : Map E → ℕ → Option (Map E)
  rehash = rehash_by insert

  unfoldable pub reserve : Map E → ℕ → Option (Map E)
  reserve = reserve_by insert

  unfoldable pub construct : Option (Map E)
  construct =
      rehash (record { elements = []; elements_count = 0; elements_capacity = 0 })
        elements_capacity_min

  -- The elements that are released; the memory is given back.
  unfoldable pub destruct : Map E → List E
  destruct map = release_all map.elements

  unfoldable pub size : Map E → ℕ
  size map = map.elements_count

  -- The second loop of `map_erase`: the hole is at `i`, and `j` looks for an element to move into it.
  -- It ends with the place to be emptied.
  abbrev pub moves : (i j k : ℕ) → Bool
  moves i j k = (ltb i j && (leb k i || ltb j k)) || (ltb j i && (leb k i && ltb j k))

  unfoldable pub shift_loop : (fuel : ℕ) → Map E → (i j : ℕ) → Option (Map E × ℕ)
  shift_loop zero map i j = none
  shift_loop (suc fuel) map i j =
      let next = wrap map (add64 j 1) in
      get_elem? map.elements next >>= λ e.
      let moving = moves i next (wrap map (hash e)) in
      let rest =
        shift_loop fuel (if moving then record map { elements = set map.elements i e } else map)
          (if moving then next else i) next in
      if vacant e then some (map, i) else rest

  -- The map, and the element that is released, if it was there.
  unfoldable pub erase : Map E → E → Option (Map E × Option E)
  erase map element = do
    i ← at map element
    test ← get_elem? map.elements i
    if vacant test then some (map, none) else (do
      r ←
          shift_loop (suc (length map.elements))
            (record map { elements_count = sub64 map.elements_count 1 }) i i
      some (record r.0 { elements = set r.0.elements r.1 empty }, some test))

  -- The released elements and the new map.
  unfoldable pub clear : Map E → Option (List E × Map E)
  clear map =
      rehash (record { elements = []; elements_count = 0; elements_capacity = 0 })
        elements_capacity_min
      >>= λ m. some (release_all map.elements, m)
