-- ===== src/Pools/Counts.antt =====
-- No object of a pool is handed out twice.
use libreactorng.Prelude.{
  ℕ, zero, suc, ◌+◌, ◌*◌, ◌^◌, ◌≤◌, ◌<◌, ◌≡◌, ◌⊎◌, refl, ap, ◌∙◌, some, List, [], ◌∷◌, ◌++◌, ◌==◌,
  if◌then◌else◌, ◌>>=◌, length, arith, inl, inr, lt_or_ge, length-append,
}
use libreactorng.Prelude.Words.{add64}
use libreactorng.Pools
use libreactorng.Pools.{Pool}

-- How often an address occurs.
unfoldable pub count : ℕ → List ℕ → ℕ
count a [] = 0
count a (x ∷ xs) = (if x == a then 1 else 0) + count a xs

pub count-append : (a : ℕ) (xs ys : List ℕ) → count a (xs ++ ys) ≡ count a xs + count a ys
unfolding count
count-append a [] ys = omega arith
count-append a (x ∷ xs) ys = omega (arith, count-append a xs ys)

-- The objects of all chunks.
unfoldable pub all_objects : (size : ℕ) → List ℕ → List ℕ
all_objects size [] = []
all_objects size (c ∷ chunks) = Pools.objects size 128 c ++ all_objects size chunks

-- The memory of a chunk lies apart from that of the others.
abbrev pub Apart : (bytes chunk : ℕ) → List ℕ → Type 0
Apart bytes chunk [] = Unit {0}
Apart bytes chunk (c ∷ chunks) =
    ((chunk + bytes ≤ c) ⊎ (c + bytes ≤ chunk)) × Apart bytes chunk chunks

-- What malloc promises for the memory of chunks.
abbrev pub IsFresh : (List ℕ → ℕ → ℕ) → Type 0
IsFresh fresh = (chunks : List ℕ) (bytes : ℕ) → Apart bytes (fresh chunks bytes) chunks

-- The objects of the chunks are those that are free and those in use, each of them once.
pub record IsPool (pool : Pool) (live : List ℕ) : Type 0 where
  pub sized : 0 < pool.size
  pub each :
      (a : ℕ) → count a pool.free + count a live ≡ count a (all_objects pool.size pool.chunks)
  pub once : (a : ℕ) → count a (all_objects pool.size pool.chunks) ≤ 1
  pub allocated : pool.allocated ≡ length live
  pub small : length live < 2 ^ 63

count-objects_below : (a size n c : ℕ) → a < c → count a (Pools.objects size n c) ≡ 0
unfolding Pools.objects count
count-objects_below a size zero c h = refl
count-objects_below a size (suc n) c h =
    ground (arith, count-objects_below a size n (c + size) (omega arith))

count-objects_above :
    (a size n c : ℕ) → c + size * n ≤ a → 0 < size → count a (Pools.objects size n c) ≡ 0
unfolding Pools.objects count
count-objects_above a size zero c h pos = refl
count-objects_above a size (suc n) c h pos =
    ground (arith, count-objects_above a size n (c + size) (omega (arith, h)) pos)

pub count-objects : (a size n c : ℕ) → 0 < size → count a (Pools.objects size n c) ≤ 1
unfolding Pools.objects count
count-objects a size zero c h = omega arith
count-objects a size (suc n) c h = elim (lt_or_ge a (c + size)) [
  | inl less ↦ ground (arith, count-objects_below a size n (c + size) less)
  | inr more ↦ ground (arith, count-objects a size n (c + size) h)
]

others_lem :
    (a size c : ℕ) (chunks : List ℕ)
    → 0 < size
    → c ≤ a
    → a < c + size * 128
    → Apart (size * 128) c chunks
    → count a (all_objects size chunks) ≡ 0
unfolding count all_objects
others_lem a size c [] pos low high apart = refl
others_lem a size c (d ∷ chunks) pos low high (inl before, apart) = omega (
  arith,
  count-append a (Pools.objects size 128 d) (all_objects size chunks),
  count-objects_below a size 128 d (omega (arith, before, high)),
  others_lem a size c chunks pos low high apart,
)
others_lem a size c (d ∷ chunks) pos low high (inr behind, apart) = omega (
  arith,
  count-append a (Pools.objects size 128 d) (all_objects size chunks),
  count-objects_above a size 128 d (omega (arith, behind, low)) pos,
  others_lem a size c chunks pos low high apart,
)

-- An object of a new chunk is none of the others.
chunk_once :
    (a size c : ℕ) (chunks : List ℕ)
    → 0 < size
    → Apart (size * 128) c chunks
    → count a (all_objects size chunks) ≤ 1
    → count a (all_objects size chunks) + count a (Pools.objects size 128 c) ≤ 1
chunk_once a size c chunks pos apart once = elim (lt_or_ge a c) [
  | inl below ↦ omega (arith, once, count-objects_below a size 128 c below)
  | inr low ↦ elim (lt_or_ge a (c + size * 128)) [
    | inl high ↦
        omega (arith, others_lem a size c chunks pos low high apart, count-objects a size 128 c pos)
    | inr above ↦ omega (arith, once, count-objects_above a size 128 c above pos)
  ]
]

all_objects-append :
    (a size : ℕ) (chunks : List ℕ) (c : ℕ)
    → count a (all_objects size (chunks ++ (c ∷ [])))
      ≡ count a (all_objects size chunks) + count a (Pools.objects size 128 c)
unfolding all_objects count
all_objects-append a size [] c = omega (arith, count-append a (Pools.objects size 128 c) [])
all_objects-append a size (d ∷ chunks) c = omega (
  arith,
  count-append a (Pools.objects size 128 d) (all_objects size (chunks ++ (c ∷ []))),
  count-append a (Pools.objects size 128 d) (all_objects size chunks),
  all_objects-append a size chunks c,
)

-- Taking the last object.
pop_lem :
    (x : ℕ) (xs : List ℕ)
    → (o : ℕ) × (rest : List ℕ) × (Pools.pop (x ∷ xs) ≡ some (o, rest))
      × ((a : ℕ) → count a (x ∷ xs) ≡ count a rest + count a (o ∷ []))
unfolding Pools.pop count
pop_lem x [] = (x, [], refl, λ a. omega arith)
pop_lem x (y ∷ xs) =
    let (o, rest, e, counts) = pop_lem y xs in
    (o, x ∷ rest, ground (arith, e), λ a. omega (arith, counts a))

-- A pool with a free object.
pub record IsFilled (pool p : Pool) (live : List ℕ) : Type 0 where
  pub valid : IsPool p live
  pub object : ℕ
  pub others : List ℕ
  pub filled : p.free ≡ object ∷ others

refill_of :
    (fresh : List ℕ → ℕ → ℕ) (pool : Pool) (live free : List ℕ)
    → pool.free ≡ free
    → IsFresh fresh
    → IsPool pool live
    → IsFilled pool (Pools.refill fresh pool) live
unfolding Pools.refill Pools.objects
refill_of fresh pool live [] e apart v =
    let c = fresh pool.chunks (pool.size * 128) in
    let new = Pools.objects pool.size 128 c in
    let grown = record pool { chunks = pool.chunks ++ (c ∷ []); free = pool.free ++ new } in
    let done : Pools.refill fresh pool ≡ grown = ground (arith, ap length e) in
    rw done (record {
      valid = record {
        sized = v.sized;
        each = λ a. omega (
          arith,
          v.each a,
          count-append a pool.free new,
          all_objects-append a pool.size pool.chunks c,
        );
        once = λ a. omega (
          arith,
          chunk_once a pool.size c pool.chunks v.sized (apart pool.chunks (pool.size * 128))
              (v.once a),
          all_objects-append a pool.size pool.chunks c,
        );
        allocated = v.allocated;
        small = v.small;
      };
      object = c;
      others = Pools.objects pool.size 127 (c + pool.size);
      filled = ap (λ xs. xs ++ new) e;
    })
refill_of fresh pool live (x ∷ xs) e apart v =
    let same : Pools.refill fresh pool ≡ pool = ground (arith, ap length e) in
    rw same (record { valid = v; object = x; others = xs; filled = e })

-- `pool_malloc` returns an object that is not in use, and all objects of the chunks stay free or in
-- use, each once. The memory of the chunks is disjoint, and fewer than 2 ^ 63 - 1 objects are in use.
pub malloc_lem :
    (fresh : List ℕ → ℕ → ℕ) (pool : Pool) (live : List ℕ)
    → IsFresh fresh
    → IsPool pool live
    → suc (length live) < 2 ^ 63
    → (o : ℕ) × (p : Pool) × (Pools.malloc fresh pool ≡ some (o, p))
      × IsPool p (o ∷ live)
      × (count o live ≡ 0)
unfolding Pools.malloc count
malloc_lem fresh pool live apart v room =
    let f = refill_of fresh pool live pool.free refl apart v in
    let q = Pools.refill fresh pool in
    let (o, rest, e, counts) = pop_lem f.object f.others in
    let popped : Pools.pop q.free ≡ some (o, rest) = ap Pools.pop f.filled ∙ e in
    let after : (a : ℕ) → count a q.free ≡ count a rest + count a (o ∷ []) =
      λ a. ap (count a) f.filled ∙ counts a in
    (
      o,
      record q { free = rest; allocated = add64 q.allocated 1 },
      ap (λ t. t >>= λ t. some (t.0, record q { free = t.1; allocated = add64 q.allocated 1 }))
          popped,
      record {
        sized = f.valid.sized;
        each = λ a. omega (arith, f.valid.each a, after a);
        once = f.valid.once;
        allocated = omega (arith, f.valid.allocated, room);
        small = room;
      },
      ground (arith, f.valid.each o, f.valid.once o, after o),
    )

-- `pool_free` of an object in use makes it free.
pub free_lem :
    (pool : Pool) (front : List ℕ) (o : ℕ) (back : List ℕ)
    → IsPool pool (front ++ (o ∷ back))
    → IsPool (Pools.free pool o) (front ++ back)
unfolding Pools.free count
free_lem pool front o back v =
    let more = length-append front (o ∷ back) in
    let less = length-append front back in
    record {
      sized = v.sized;
      each = λ a. omega (
        arith,
        v.each a,
        count-append a pool.free (o ∷ []),
        count-append a front (o ∷ back),
        count-append a front back,
      );
      once = v.once;
      allocated = omega (arith, v.allocated, more, less, v.small);
      small = omega (arith, v.small, more, less);
    }
