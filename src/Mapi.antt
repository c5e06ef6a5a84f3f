-- ===== src/Mapi.antt =====
-- src/reactor/mapi.c and mapi.h: a map from integers to integers. The key 0 marks a vacant place.
pub mod Laws
use libreactorng.Prelude.{ℕ, Bool, Option, none, some, List, ◌==◌, ◌>>=◌, ◌>>◌, get_elem?}
use libreactorng.Map
use libreactorng.Map.{Map}
use libreactorng.Map.Interface.{Callbacks}
use libreactorng.Hash.{hash_uint64}

-- mapi_entry_t
pub record Entry : Type 0 where
  pub key : ℕ
  pub value : ℕ

-- `set` with NULL, `equal` with NULL, `equal`, and `hash`.
abbrev pub calls : Callbacks Entry
calls = record {
  empty = record { key = 0; value = 0 };
  vacant = λ a. a.key == 0;
  equal = λ a b. a.key == b.key;
  hash = λ a. hash_uint64 a.key;
}

abbrev entry : ℕ → Entry
entry key = record { key = key; value = 0 }

unfoldable pub construct : Option (Map Entry)
construct = Map.construct calls

unfoldable pub destruct : Map Entry → List Entry
destruct mapi = Map.destruct calls mapi

unfoldable pub size : Map Entry → ℕ
size mapi = Map.size calls mapi

unfoldable pub reserve : Map Entry → ℕ → Option (Map Entry)
reserve mapi size = Map.reserve calls mapi size

unfoldable pub at : Map Entry → ℕ → Option ℕ
at mapi key = do i ← Map.at calls mapi (entry key); e ← get_elem? mapi.elements i; some e.value

unfoldable pub insert : Map Entry → (key value : ℕ) → Option (Map Entry × Option Entry)
insert mapi key value = Map.insert calls mapi (record { key = key; value = value })

unfoldable pub erase : Map Entry → ℕ → Option (Map Entry × Option Entry)
erase mapi key = Map.erase calls mapi (entry key)

unfoldable pub clear : Map Entry → Option (List Entry × Map Entry)
clear mapi = Map.clear calls mapi
