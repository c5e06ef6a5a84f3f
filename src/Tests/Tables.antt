-- ===== src/Tests/Tables.antt =====
-- The hash functions and the maps at concrete inputs.
use libreactorng.Prelude.{
  zero, suc, ◌*◌, ◌>>=◌, Option, none, some, [], ◌∷◌, get_elem?, ◌==◌, suc, ℕ, ◌≡◌, ◌<◌, ◌^◌, refl,
  none, some, ◌==◌, if◌then◌else◌, arith, replicate,
}
use libreactorng.Data.{Data}
use libreactorng.Hash
use libreactorng.Hash.Blocks.{hash_data_lem}
use libreactorng.Map
use libreactorng.Map.{Map}
use libreactorng.Map.Probing.{IsTable, Stops, at_lem}
use libreactorng.Map.Lookup.{IsProbed, lookup}
use libreactorng.Map.Inserting.{lookup-insert, IsInserted, inserted}
use libreactorng.Map.Counting.{IsCounted, occupied}
use libreactorng.Map.Empty
use libreactorng.Map.Empty.{fresh, construct_lem}
use libreactorng.Mapi
use libreactorng.Mapi.{Entry, calls}
use libreactorng.Mapi.Laws.{IsMapi, calls-IsLawful, at-insert}
use libreactorng.Roundup.{fill_all}

abbrev long_slice : Data
long_slice = record { iov_base = some (replicate 70 7); iov_len = 70 }

hash_runs : (Hash.hash_uint64 1 ≡ 12994781566227106604)
unfolding Hash.hash_uint64
hash_runs = refl

hash_data_lem_example : (h : ℕ) × (Hash.hash_data long_slice ≡ some h) × (h < 2 ^ 64)
hash_data_lem_example = hash_data_lem long_slice (omega arith)

abbrev none_yet : Map Entry
none_yet = fresh calls

abbrev seven : Entry
seven = record { key = 7; value = 70 }

at_lem_example :
    (d : ℕ) × (p : ℕ) × (Map.at calls none_yet seven ≡ some p)
    × Stops calls none_yet seven (Hash.hash_uint64 7) d p
at_lem_example =
    at_lem calls none_yet seven (Empty.fresh-IsTable calls)
      (Empty.fresh-HasRoom calls calls-IsLawful)

-- A table of one place, which the first insertion rehashes.
abbrev one_place : Map Entry
one_place = record {
  elements = record { key = 0; value = 0 } ∷ [];
  elements_count = 0;
  elements_capacity = 1;
}

one_vacant :
    (p : ℕ) (e : Entry) → get_elem? one_place.elements p ≡ some e → (e.key ≡ 0) × (e.value ≡ 0)
one_vacant zero e got = ground (arith, got)
one_vacant (suc p) e got = absurd (ground (arith, got))

one_place-IsMapi : IsMapi one_place
unfolding occupied
one_place-IsMapi = record {
  table = record { bits = 0; power = refl; small = omega arith; places = refl };
  probed = λ p e got full. absurd (ground (arith, one_vacant p e got, full));
  counted = refl;
  half = omega arith;
  each = λ p e got h. (one_vacant p e got).1;
}

lookup-insert_example :
    (new : Map Entry) × (o : Option Entry) × (Map.insert calls one_place seven ≡ some (new, o))
    × IsInserted calls calls-IsLawful (λ e. e.key ≡ 0 → e.value ≡ 0) one_place seven new o
lookup-insert_example =
    lookup-insert calls calls-IsLawful (λ e. e.key ≡ 0 → e.value ≡ 0) one_place seven
      one_place-IsMapi (λ e. refl) (λ e. absurd (omega (arith, e))) refl (omega arith)

construct_lem_example :
    (new : Map Entry) × (Map.construct calls ≡ some new)
    × IsTable new
    × IsProbed calls new
    × IsCounted calls new
    × (Map.size calls new ≡ 0)
    × (lookup calls new seven ≡ none)
construct_lem_example = construct_lem calls calls-IsLawful seven

at-insert_example :
    (new : Map Entry) × (o : Option Entry) × (Mapi.insert one_place 7 70 ≡ some (new, o))
    × IsMapi new
    × (o ≡ inserted (lookup calls one_place seven) none (some seven))
    × (Mapi.size new
        ≡ inserted (lookup calls one_place seven) (suc (Mapi.size one_place)) (Mapi.size one_place))
    × (Mapi.at new 8
        ≡ inserted
            (lookup calls one_place seven)
            (if 7 == 8 then some 70 else Mapi.at one_place 8)
            (Mapi.at one_place 8))
at-insert_example =
    at-insert one_place 7 70 8 one_place-IsMapi (λ e. omega (arith, e)) (omega arith)

-- Four insertions behind `map_construct`, and a fifth one that rehashes.
abbrev added : Option (Map Entry) → ℕ → Option (Map Entry)
added o key = o >>= λ m. Mapi.insert m key (key * 10) >>= λ r. some r.0

rehash_runs :
    (added (added (added (added (added Mapi.construct 1) 2) 3) 4) 5 >>= λ m. Mapi.at m 3) ≡ some 30
unfolding Mapi.construct Mapi.insert Mapi.at Map.construct Map.insert Map.insert_within
    Map.reserve_by Map.rehash Map.rehash_by Map.reinsert Map.place Map.at Map.at_loop Map.roundup
    fill_all Hash.hash_uint64
rehash_runs = refl
