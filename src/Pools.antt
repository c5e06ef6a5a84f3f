-- ===== src/Pools.antt =====
-- src/reactor/pool.c: objects of one size from chunks of 128. Vectors of pointers are their
-- sequences, the last object at the end (Vector).
pub mod Counts
use libreactorng.Prelude.{
  ℕ, zero, suc, ◌+◌, ◌-◌, ◌*◌, ◌%◌, ◌^◌, Option, none, some, List, [], ◌∷◌, ◌++◌, ◌==◌,
  if◌then◌else◌, ◌>>=◌, length,
}
use libreactorng.Prelude.Words.{add64, sub64}

-- The addresses of the chunks' objects, and of the free objects.
pub record Pool : Type 0 where
  pub size : ℕ
  pub allocated : ℕ
  pub chunks : List ℕ
  pub free : List ℕ

abbrev pub chunk_size : ℕ
chunk_size = 128

unfoldable pub construct : ℕ → Pool
construct size = record { size = size; allocated = 0; chunks = []; free = [] }

unfoldable pub size : Pool → ℕ
size pool = pool.allocated

-- `for (i = 0; i < POOL_CHUNK_SIZE; i++)`: the rounds with `n` objects left, at `object`.
unfoldable pub objects : (size n object : ℕ) → List ℕ
objects size zero object = []
objects size (suc n) object = object ∷ objects size n (object + size)

-- `vector_back` and `vector_pop_back`.
unfoldable pub pop : List ℕ → Option (ℕ × List ℕ)
pop [] = none
pop (x ∷ []) = some (x, [])
pop (x ∷ y ∷ xs) = pop (y ∷ xs) >>= λ t. some (t.0, x ∷ t.1)

module _ (fresh : List ℕ → (bytes : ℕ) → ℕ) where
  -- A new chunk when no object is free; `fresh` gives the address of its memory.
  unfoldable pub refill : Pool → Pool
  unfolding objects
  refill pool =
      let chunk = fresh pool.chunks (pool.size * chunk_size) in
      if length pool.free == 0
      then record pool {
        chunks = pool.chunks ++ (chunk ∷ []);
        free = pool.free ++ objects pool.size chunk_size chunk;
      }
      else pool

  unfoldable pub malloc : Pool → Option (ℕ × Pool)
  unfolding refill pop
  malloc pool =
      let p = refill pool in
      pop p.free >>= λ t. some (t.0, record p { free = t.1; allocated = add64 p.allocated 1 })

unfoldable pub free : Pool → ℕ → Pool
free pool object = record pool {
  free = pool.free ++ (object ∷ []);
  allocated = sub64 pool.allocated 1;
}
