-- ===== src/Vector.antt =====
-- src/reactor/vector.c and vector.h: arrays of objects of one size in a buffer. An object is the
-- memory that its pointer points to; the pointers that `release` receives are a result. The division
-- by an object size of 0 is a fault.
pub mod Flat
pub mod Sequence
pub mod Ends
use libreactorng.Prelude.{
  ℕ, zero, suc, ◌+◌, ◌-◌, ◌/◌, Bool, Option, none, some, List, [], ◌∷◌, ◌==◌, if◌then◌else◌, ◌>>=◌,
}
use libreactorng.Prelude.Words.{add64, sub64, mul64}
use libreactorng.Prelude.Memory.{Pointer, Allocator}
use libreactorng.Data
use libreactorng.Buffer
use libreactorng.Buffer.{Buffer}

pub record Vector : Type 0 where
  pub buffer : Buffer
  pub object_size : ℕ

unfoldable pub construct : ℕ → Vector
construct object_size = record { buffer = Buffer.construct; object_size = object_size }

unfoldable pub size : Vector → Option ℕ
size v = if v.object_size == 0 then none else some (Buffer.size v.buffer / v.object_size)

unfoldable pub capacity : Vector → Option ℕ
capacity v = if v.object_size == 0 then none else some (v.buffer.capacity / v.object_size)

unfoldable pub empty : Vector → Option Bool
empty v = size v >>= λ n. some (n == 0)

unfoldable pub at : Vector → ℕ → Pointer
at v position = Buffer.at v.buffer (mul64 position v.object_size)

unfoldable pub base : Vector → Pointer
base v = Buffer.base v.buffer

unfoldable pub front : Vector → Pointer
front v = base v

unfoldable pub back : Vector → Pointer
back v = Buffer.at v.buffer (sub64 (Buffer.size v.buffer) v.object_size)

-- The pointers that the loop of `vector_erase_range` releases from the object `i` on.
unfoldable pub released : Vector → (count i : ℕ) → List Pointer
released v zero i = []
released v (suc count) i = at v i ∷ released v count (i + 1)

-- The vector over a new buffer.
abbrev pub over : Vector → Buffer → Vector
over v buffer = record v { buffer = buffer }

module _ (heap : Allocator) where
  unfoldable pub reserve : Vector → ℕ → Vector
  reserve v capacity = over v (Buffer.reserve heap v.buffer (mul64 capacity v.object_size))

  unfoldable pub shrink_to_fit : Vector → Vector
  shrink_to_fit v = over v (Buffer.compact heap v.buffer)

  unfoldable pub insert : Vector → ℕ → Pointer → Option Vector
  insert v position object = do
    b ←
        Buffer.insert heap v.buffer (mul64 position v.object_size)
          (Data.define object v.object_size)
    some (over v b)

  -- `n` is `last - first`.
  unfoldable pub insert_range : Vector → ℕ → (first : Pointer) → (n : ℕ) → Option Vector
  insert_range v position first n = do
    b ← Buffer.insert heap v.buffer (mul64 position v.object_size) (Data.define first n)
    some (over v b)

  unfoldable pub insert_fill : Vector → (position count : ℕ) → Pointer → Option Vector
  insert_fill v position count object = do
    b ←
        Buffer.insert_fill heap v.buffer (mul64 position v.object_size) count
          (Data.define object v.object_size)
    some (over v b)

  unfoldable pub erase : Vector → ℕ → Option (Vector × List Pointer)
  erase v position = do
    b ← Buffer.erase heap v.buffer (mul64 position v.object_size) v.object_size
    some (over v b, at v position ∷ [])

  unfoldable pub erase_range : Vector → (first last : ℕ) → Option (Vector × List Pointer)
  erase_range v first last = do
    b ←
        Buffer.erase heap v.buffer (mul64 first v.object_size)
          (mul64 (sub64 last first) v.object_size)
    some (over v b, released v (last - first) first)

  unfoldable pub clear : Vector → Option (Vector × List Pointer)
  clear v = do
    n ← size v
    r ← erase_range v 0 n
    some (over r.0 (Buffer.clear heap r.0.buffer), r.1)

  -- The memory is given back.
  unfoldable pub destruct : Vector → Option (List Pointer)
  destruct v = clear v >>= λ r. some r.1

  unfoldable pub push_back : Vector → Pointer → Option Vector
  push_back v object = do
    b ← Buffer.insert heap v.buffer (Buffer.size v.buffer) (Data.define object v.object_size)
    some (over v b)

  unfoldable pub pop_back : Vector → Option (Vector × List Pointer)
  pop_back v = do n ← size v; erase v (sub64 n 1)
