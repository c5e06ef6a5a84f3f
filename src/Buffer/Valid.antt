-- ===== src/Buffer/Valid.antt =====
-- The invariant of a buffer, and what src/reactor/buffer.c's changes of capacity and size keep.
use libreactorng.Prelude.{
  ℕ, ◌-◌, ◌^◌, ◌≤◌, ◌<◌, ◌≡◌, refl, List, length, take, arith, max, get_elem?, length-take,
  get_elem?-take, inl, inr, lt_or_ge, lt→ltb, le→ltb, ◌*◌,
}
use libreactorng.Prelude.Words.{sub64}
use libreactorng.Prelude.Memory.{bytes, Allocator}
use libreactorng.Roundup.{fill_all-power}
use native.Mathlib.Nat.{pow-le-pow_right}
use libreactorng.Data
use libreactorng.Data.{Data}
use libreactorng.Buffer
use libreactorng.Buffer.{Buffer}

-- The capacity is the size of the block, and the bytes in use lie inside it.
pub record IsValid (b : Buffer) : Type 0 where
  pub owns : length (bytes b.region.iov_base) ≡ b.capacity
  pub inside : b.region.iov_len ≤ b.capacity
  pub small : b.capacity ≤ 2 ^ 63

abbrev pub contents : Buffer → List ℕ
contents b = take b.region.iov_len (bytes b.region.iov_base)

pub length-contents : (b : Buffer) → IsValid b → length (contents b) ≡ b.region.iov_len
length-contents b v = omega (arith, length-take b.region.iov_len (bytes b.region.iov_base), v)

power_small : (k : ℕ) → 2 ^ k < 2 ^ 64 → 2 ^ k ≤ 2 ^ 63
power_small k h = elim (lt_or_ge k 64) [
  | inl p ↦ pow-le-pow_right (omega arith) {i = k} {j = 63} (omega arith)
  | inr p ↦ absurd (omega (arith, pow-le-pow_right {n = 2} (omega arith) {i = 64} {j = k} p))
]

-- For a size from 1 to 2 ^ 63, `buffer_roundup` gives a power of two that is at least the size, at
-- most 2 ^ 63, and at most 2 * (size - 1), or 1 for the size 1: the least that is large enough.
pub roundup_lem :
    (n : ℕ)
    → 0 < n
    → n ≤ 2 ^ 63
    → (k : ℕ) × (Buffer.roundup n ≡ 2 ^ k)
      × (n ≤ 2 ^ k)
      × (2 ^ k ≤ max 1 (2 * (n - 1)))
      × (2 ^ k ≤ 2 ^ 63)
unfolding Buffer.roundup
roundup_lem n p h =
    let (k, e, above, least) = fill_all-power (n - 1) (n - 1) (omega arith) (omega arith) in
    let less : sub64 n 1 ≡ n - 1 = omega arith in
    (k, rw less (omega (arith, e, least)), omega arith, least, power_small k (omega arith))

module _ (heap : Allocator) where
  -- Reserving up to 2 ^ 63 bytes keeps a buffer valid, makes room for them, and leaves its size
  -- and its bytes as they are.
  pub reserve_lem :
      (b : Buffer) (n : ℕ)
      → IsValid b
      → n ≤ 2 ^ 63
      → IsValid (Buffer.reserve heap b n)
        × (n ≤ (Buffer.reserve heap b n).capacity)
        × ((Buffer.reserve heap b n).region.iov_len ≡ b.region.iov_len)
        × (contents (Buffer.reserve heap b n) ≡ contents b)
  unfolding Buffer.reserve
  reserve_lem b n v h = elim (lt_or_ge b.capacity n) [
    | inr enough ↦ rw (le→ltb b.capacity n enough) (v, enough, refl, refl)
    | inl short ↦
        let (k, e, above, least, small) = roundup_lem n (omega arith) h in
        rw (lt→ltb b.capacity n short) (
          record {
            owns = heap.length-realloc b.region.iov_base (Buffer.roundup n);
            inside = omega (arith, v.inside);
            small = omega arith;
          },
          omega arith,
          refl,
          heap.take-realloc b.region.iov_base (Buffer.roundup n) b.region.iov_len
              (omega (arith, v.inside)) (omega (arith, v.inside, v.owns)),
        )
  ]

  -- Within the capacity only the size changes.
  pub resize_within :
      (b : Buffer) (n : ℕ)
      → n ≤ b.capacity
      → Buffer.resize heap b n ≡ record b { region = Data.define b.region.iov_base n }
  unfolding Buffer.resize
  resize_within b n h = rw (le→ltb b.capacity n h)

  resize_beyond :
      (b : Buffer) (n : ℕ)
      → b.capacity < n
      → Buffer.resize heap b n ≡ record (Buffer.reserve heap b n) {
        region = Data.define (Buffer.reserve heap b n).region.iov_base n;
      }
  unfolding Buffer.resize
  resize_beyond b n h = rw (lt→ltb b.capacity n h)

  get_elem?-contents :
      (b : Buffer) (i : ℕ)
      → i < b.region.iov_len
      → get_elem? (contents b) i ≡ get_elem? (bytes b.region.iov_base) i
  get_elem?-contents b i h =
      ground (arith, get_elem?-take b.region.iov_len (bytes b.region.iov_base) i)

  -- Resizing to at most 2 ^ 63 bytes keeps a buffer valid and gives it that size; the bytes below
  -- the old and the new size stay.
  pub resize_lem :
      (b : Buffer) (n : ℕ)
      → IsValid b
      → n ≤ 2 ^ 63
      → IsValid (Buffer.resize heap b n)
        × ((Buffer.resize heap b n).region.iov_len ≡ n)
        × ((i : ℕ)
            → i < b.region.iov_len
            → i < n
            → get_elem? (contents (Buffer.resize heap b n)) i ≡ get_elem? (contents b) i)
  unfolding Data.define
  resize_lem b n v h = elim (lt_or_ge b.capacity n) [
    | inr enough ↦ rw (resize_within b n enough) (
      record { owns = v.owns; inside = enough; small = v.small },
      refl,
      λ i p q.
          ground (arith, get_elem?-contents b i p, get_elem?-take n (bytes b.region.iov_base) i),
    )
    | inl short ↦
        let (v', room, same_size, same) = reserve_lem b n v h in
        rw (resize_beyond b n short) (
          record { owns = v'.owns; inside = room; small = v'.small },
          refl,
          λ i p q. ground (
            arith,
            get_elem?-contents (Buffer.reserve heap b n) i,
            same_size,
            same,
            get_elem?-take n (bytes (Buffer.reserve heap b n).region.iov_base) i,
          ),
        )
  ]

  -- `buffer_compact` leaves no spare capacity, and keeps the bytes.
  pub compact_lem :
      (b : Buffer)
      → IsValid b
      → IsValid (Buffer.compact heap b)
        × ((Buffer.compact heap b).capacity ≡ b.region.iov_len)
        × (contents (Buffer.compact heap b) ≡ contents b)
  unfolding Buffer.compact Data.define Data.null
  compact_lem b v = ground (
    arith,
    v.owns,
    heap.length-realloc b.region.iov_base b.region.iov_len,
    heap.take-realloc b.region.iov_base b.region.iov_len b.region.iov_len,
  )
