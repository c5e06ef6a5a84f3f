-- ===== src/Mapi/Laws.antt =====
-- The maps of src/reactor/mapi.c as finite maps from the keys but 0, which answer 0 for a missing key.
use libreactorng.Prelude.{
  refl, suc, ◌^◌, ◌*◌, ◌+◌, ℕ, ◌≤◌, ◌≡◌, ◌≢◌, ap, Option, none, some, ◌==◌, if◌then◌else◌,
  get_elem?, arith,
}
use libreactorng.Map.{Map}
use libreactorng.Map.Interface.{IsLawful}
use libreactorng.Map.Probing
use libreactorng.Map.Probing.{IsTable, HasRoom, Stops}
use libreactorng.Map.Lookup
use libreactorng.Map.Lookup.{IsProbed, lookup}
use libreactorng.Map.Inserting
use libreactorng.Map.Inserting.{inserted, IsInserted}
use libreactorng.Map.Rehashing
use libreactorng.Map.Rehashing.{IsSound}
use libreactorng.Hash.{hash_uint64}
use libreactorng.Mapi
use libreactorng.Mapi.{Entry, calls}

pub calls-IsLawful : IsLawful calls
calls-IsLawful = record {
  vacant-empty = ground arith;
  equal_refl = λ a. ground arith;
  equal_sym = λ a b h. ground arith;
  equal_trans = λ a b d h h'. ground arith;
  hash-equal = λ a b h. ap hash_uint64 (ground arith);
}

-- A vacant place holds no value.
abbrev pub IsClean : Map Entry → Type 0
IsClean mapi = (p : ℕ) (e : Entry) → get_elem? mapi.elements p ≡ some e → e.key ≡ 0 → e.value ≡ 0

-- The value of a look-up.
unfoldable pub answer : Option Entry → ℕ
answer none = 0
answer (some e) = e.value

at-lookup :
    (mapi : Map Entry) (key : ℕ)
    → IsTable mapi
    → HasRoom calls mapi
    → IsClean mapi
    → Mapi.at mapi key ≡ some (answer (lookup calls mapi (record { key = key; value = 0 })))
unfolding Mapi.at answer
at-lookup mapi key t r clean =
    let (d, p, found, s) = Probing.at_lem calls mapi (record { key = key; value = 0 }) t r in
    let looked = Lookup.lookup-Stops calls mapi (record { key = key; value = 0 }) d p t r s in
    ground (arith, found, s.holds, looked, clean p s.test s.holds)

-- A well-formed map, at most half full, from the keys but 0 to values.
abbrev pub IsMapi : Map Entry → Type 0
IsMapi mapi = IsSound calls calls-IsLawful (λ e. e.key ≡ 0 → e.value ≡ 0) mapi

sound-at :
    (mapi : Map Entry) (key : ℕ)
    → IsMapi mapi
    → Mapi.at mapi key ≡ some (answer (lookup calls mapi (record { key = key; value = 0 })))
sound-at mapi key v =
    at-lookup mapi key v.table
      (Rehashing.room_sound calls calls-IsLawful (λ e. e.key ≡ 0 → e.value ≡ 0) mapi v) v.each

answered :
    (mapi new : Map Entry) (element : Entry) (k : ℕ) (before : Option Entry) {o : Option Entry}
    → lookup calls mapi element ≡ before
    → IsMapi mapi
    → IsInserted calls calls-IsLawful (λ e. e.key ≡ 0 → e.value ≡ 0) mapi element new o
    → Mapi.at new k
      ≡ inserted
          (lookup calls mapi element)
          (if element.key == k then some element.value else Mapi.at mapi k)
          (Mapi.at mapi k)
unfolding answer
answered mapi new element k none e v i =
    ground (
      arith,
      e,
      i.answers (record { key = k; value = 0 }),
      sound-at new k i.sound,
      sound-at mapi k v,
    )
answered mapi new element k (some old) e v i =
    ground (
      arith,
      e,
      i.answers (record { key = k; value = 0 }),
      sound-at new k i.sound,
      sound-at mapi k v,
    )

-- In a well-formed map of fewer than 2 ^ 62 keys, a key other than 0: `mapi_insert` succeeds, with the
-- rehash that it may need, and the new map is well formed. When no entry has the key, `mapi_at` then
-- gives the value for it and what it gave before for every other key, there is one entry more, and
-- nothing is released. When an entry has it, `mapi_at` gives what it gave before for every key, and
-- the new entry is released.
pub at-insert :
    (mapi : Map Entry) (key value k : ℕ)
    → IsMapi mapi
    → key ≢ 0
    → 2 * (mapi.elements_count + 1) ≤ 2 ^ 63
    → (new : Map Entry) × (o : Option Entry) × (Mapi.insert mapi key value ≡ some (new, o))
      × IsMapi new
      × (o
          ≡ inserted
              (lookup calls mapi (record { key = key; value = value }))
              none
              (some (record { key = key; value = value })))
      × (Mapi.size new
          ≡ inserted
              (lookup calls mapi (record { key = key; value = value }))
              (suc (Mapi.size mapi))
              (Mapi.size mapi))
      × (Mapi.at new k
          ≡ inserted
              (lookup calls mapi (record { key = key; value = value }))
              (if key == k then some value else Mapi.at mapi k)
              (Mapi.at mapi k))
unfolding Mapi.insert Mapi.size
at-insert mapi key value k v real small =
    let element : Entry = record { key = key; value = value } in
    let (new, o, done, i) =
      Inserting.lookup-insert calls calls-IsLawful (λ e. e.key ≡ 0 → e.value ≡ 0) mapi element v
        (λ e. refl) (λ e. absurd (real e)) (ground (arith, real)) small in
    (
      new,
      o,
      done,
      i.sound,
      i.released,
      i.size,
      answered mapi new element k (lookup calls mapi element) refl v i,
    )
