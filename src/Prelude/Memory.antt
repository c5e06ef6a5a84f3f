-- ===== src/Prelude/Memory.antt =====
-- Memory blocks as the C library's functions see them. A pointer is `none` for NULL, and else
-- the bytes from where it points to the end of its object; a read or a write that leaves the
-- object is a fault.
use Prim.Native.Nat.{compare, Ordering}
use libreactorng.Prelude.Tests.{ltb, leb, if◌then◌else◌, ◌>>=◌}
use libreactorng.Prelude.Lists.{
  length, get_elem?, take, drop, length-take, length-drop, length-append, get_elem?-take,
  get_elem?-drop, get_elem?-append,
}
use Prim.Native.Nat.{ℕ, ◌+◌, ◌-◌, ◌≤◌}
use mathlib.Core.Path.{◌≡◌}
use mathlib.Core.Option.{Option, none, some}
use mathlib.Core.List.{List, [], ◌∷◌, ◌++◌}
use native.Mathlib.Omega.{arith}

abbrev pub Pointer : Type 0
Pointer = Option (List ℕ)

abbrev pub bytes : Pointer → List ℕ
bytes none = []
bytes (some m) = m

-- The `n` bytes at offset `i`.
unfoldable pub read : List ℕ → ℕ → ℕ → Option (List ℕ)
read m i n = if leb (i + n) (length m) then some (take n (drop i m)) else none

-- `memcpy` of the bytes `bs` to offset `i`.
unfoldable pub write : List ℕ → ℕ → List ℕ → Option (List ℕ)
write m i bs =
    if leb (i + length bs) (length m)
    then some (take i m ++ (bs ++ drop (i + length bs) m))
    else none

-- `memmove` of `n` bytes inside one block.
unfoldable pub move : List ℕ → (to from n : ℕ) → Option (List ℕ)
move m to from n = do bs ← read m from n; write m to bs

-- The sign of `memcmp` on the first `n` bytes.
unfoldable pub compare_bytes : List ℕ → List ℕ → Ordering
compare_bytes [] [] = Ordering.eq
compare_bytes [] (y ∷ ys) = Ordering.lt
compare_bytes (x ∷ xs) [] = Ordering.gt
compare_bytes (x ∷ xs) (y ∷ ys) = elim (compare x y) [
  | Ordering.eq ↦ compare_bytes xs ys
  | Ordering.lt ↦ Ordering.lt
  | Ordering.gt ↦ Ordering.gt
]

-- What the C library leaves open: the contents of memory that was never written. Allocation
-- succeeds; the code does not test for failure either.
pub record Allocator : Type 0 where
  pub malloc : ℕ → List ℕ
  pub realloc : Pointer → ℕ → List ℕ
  pub length-malloc : (n : ℕ) → length (malloc n) ≡ n
  pub length-realloc : (p : Pointer) (n : ℕ) → length (realloc p n) ≡ n
  -- The contents are unchanged up to the lesser of the old and the new size.
  pub take-realloc :
      (p : Pointer) (n k : ℕ)
      → k ≤ n
      → k ≤ length (bytes p)
      → take k (realloc p n) ≡ take k (bytes p)

pub length-read : (m : List ℕ) (i n : ℕ) {bs : List ℕ} → read m i n ≡ some bs → length bs ≡ n
unfolding read
length-read m i n h = ground (arith, length-take n (drop i m), length-drop i m)

-- Writing in bounds succeeds, and gives a block that is read index by index.
pub write_lem :
    (m : List ℕ) (i : ℕ) (bs : List ℕ)
    → i + length bs ≤ length m
    → (m' : List ℕ) × (write m i bs ≡ some m')
      × (length m' ≡ length m)
      × ((j : ℕ)
          → get_elem? m' j ≡ (
              if ltb j i
              then get_elem? m j
              else if ltb j (i + length bs)
              then get_elem? bs (j - i)
              else get_elem? m j))
unfolding write
write_lem m i bs h = (
  take i m ++ (bs ++ drop (i + length bs) m),
  ground arith,
  omega (
    arith,
    length-append (take i m) (bs ++ drop (i + length bs) m),
    length-append bs (drop (i + length bs) m),
    length-take i m,
    length-drop (i + length bs) m,
  ),
  λ j. ground (
    arith,
    get_elem?-append (take i m) (bs ++ drop (i + length bs) m) j,
    get_elem?-append bs (drop (i + length bs) m) (j - i),
    get_elem?-take i m j,
    get_elem?-drop (i + length bs) m (j - i - length bs),
    length-take i m,
  ),
)

-- Reading in bounds succeeds.
pub read_lem :
    (m : List ℕ) (i n : ℕ)
    → i + n ≤ length m
    → (bs : List ℕ) × (read m i n ≡ some bs)
      × (length bs ≡ n)
      × ((j : ℕ) → get_elem? bs j ≡ (if ltb j n then get_elem? m (i + j) else none))
unfolding read
read_lem m i n h = (
  take n (drop i m),
  ground arith,
  omega (arith, length-take n (drop i m), length-drop i m),
  λ j. ground (arith, get_elem?-take n (drop i m) j, get_elem?-drop i m j),
)

pub move_lem :
    (m : List ℕ) (to from n : ℕ)
    → from + n ≤ length m
    → to + n ≤ length m
    → (m' : List ℕ) × (move m to from n ≡ some m')
      × (length m' ≡ length m)
      × ((j : ℕ)
          → get_elem? m' j ≡ (
              if ltb j to
              then get_elem? m j
              else if ltb j (to + n)
              then get_elem? m (from + (j - to))
              else get_elem? m j))
unfolding move
move_lem m to from n hf ht =
    let (bs, got, len, at) = read_lem m from n hf in
    let (m', wrote, len', at') = write_lem m to bs (omega (arith, len)) in
    (m', rw got wrote, len', λ j. ground (arith, at' j, at (j - to), len))
