-- ===== src/Hash.antt =====
-- src/reactor/hash.c: the hash functions of the maps, on a little-endian machine. A pointer into the
-- hashed bytes is a position of the list `s`; a fetch that leaves them is a fault.
pub mod Blocks
pub mod Bounds
use Prim.Native.Nat.{bit_xor}
use libreactorng.Prelude.{
  ℕ, zero, suc, ◌+◌, ◌-◌, ◌*◌, ◌/◌, ◌%◌, ◌^◌, Bool, Option, none, some, List, [], ◌∷◌, ◌==◌, ltb,
  leb, if◌then◌else◌, ◌>>=◌, length, get_elem?, bit_or,
}
use libreactorng.Prelude.Words.{add64, sub64, mul64}
use libreactorng.Prelude.Memory.{Pointer, bytes, read}
use libreactorng.Data
use libreactorng.Data.{Data}

abbrev pub k0 : ℕ
k0 = 0xc3a5c85c97cb3127

abbrev pub k1 : ℕ
k1 = 0xb492b66fbe98f273

abbrev pub k2 : ℕ
k2 = 0x9ae16a3b2f90404f

-- The number that little-endian bytes stand for.
unfoldable pub word : List ℕ → ℕ
word [] = 0
word (b ∷ bs) = b + 256 * word bs

unfoldable pub fetch32 : List ℕ → ℕ → Option ℕ
fetch32 s p = read s p 4 >>= λ bs. some (word bs)

unfoldable pub fetch64 : List ℕ → ℕ → Option ℕ
fetch64 s p = read s p 8 >>= λ bs. some (word bs)

unfoldable pub shift_mix : ℕ → ℕ
shift_mix v = bit_xor v (v / 2 ^ 47)

unfoldable pub rotate64 : ℕ → ℕ → ℕ
rotate64 v shift = bit_or (v / 2 ^ shift) (mul64 v (2 ^ (64 - shift)))

unfoldable pub hash_len_16 : (u v mul : ℕ) → ℕ
hash_len_16 u v mul =
    let a = mul64 (bit_xor u v) mul in
    let a2 = bit_xor a (a / 2 ^ 47) in
    let b = mul64 (bit_xor v a2) mul in let b2 = bit_xor b (b / 2 ^ 47) in mul64 b2 mul

-- The branch for at least 8 bytes.
unfoldable pub hash_len_8_to_16 : List ℕ → ℕ → Option ℕ
unfolding rotate64
hash_len_8_to_16 s len = do
  let mul = add64 k2 (mul64 len 2)
  first ← fetch64 s 0
  let a = add64 first k2
  b ← fetch64 s (sub64 len 8)
  let c = add64 (mul64 (rotate64 b 37) mul) a
  let d = mul64 (add64 (rotate64 a 25) b) mul
  some (hash_len_16 c d mul)

-- The branch for 4 to 7 bytes.
unfoldable pub hash_len_4_to_7 : List ℕ → ℕ → Option ℕ
hash_len_4_to_7 s len = do
  let mul = add64 k2 (mul64 len 2)
  a ← fetch32 s 0
  b ← fetch32 s (sub64 len 4)
  some (hash_len_16 (add64 len (mul64 a 8)) b mul)

-- The branch for 1 to 3 bytes; `y` and `z` are 32-bit integers.
unfoldable pub hash_len_1_to_3 : List ℕ → ℕ → Option ℕ
hash_len_1_to_3 s len = do
  a ← get_elem? s 0
  b ← get_elem? s (len / 2)
  c ← get_elem? s (sub64 len 1)
  let y = (a + b * 2 ^ 8) % 2 ^ 32
  let z = add64 len (c * 2 ^ 2 % 2 ^ 32) % 2 ^ 32
  some (mul64 (shift_mix (bit_xor (mul64 y k2) (mul64 z k0))) k2)

unfoldable pub hash_len_0_to_16 : List ℕ → ℕ → Option ℕ
hash_len_0_to_16 s len =
    if leb 8 len
    then hash_len_8_to_16 s len
    else if leb 4 len
    then hash_len_4_to_7 s len
    else if ltb 0 len
    then hash_len_1_to_3 s len
    else some k2

unfoldable pub hash_len_17_to_32 : List ℕ → ℕ → Option ℕ
hash_len_17_to_32 s len = do
  let mul = add64 k2 (mul64 len 2)
  a0 ← fetch64 s 0
  let a = mul64 a0 k1
  b ← fetch64 s 8
  c0 ← fetch64 s (sub64 len 8)
  let c = mul64 c0 mul
  d0 ← fetch64 s (sub64 len 16)
  let d = mul64 d0 k2
  some (
      hash_len_16 (add64 (add64 (rotate64 (add64 a b) 43) (rotate64 c 30)) d)
        (add64 (add64 a (rotate64 (add64 b k2) 18)) c) mul)

unfoldable pub hash_len_33_to_64 : List ℕ → ℕ → Option ℕ
hash_len_33_to_64 s len = do
  let mul = add64 k2 (mul64 len 2)
  a0 ← fetch64 s 0
  let a = mul64 a0 k2
  b ← fetch64 s 8
  c0 ← fetch64 s (sub64 len 8)
  let c = mul64 c0 mul
  d0 ← fetch64 s (sub64 len 16)
  let d = mul64 d0 k2
  let y = add64 (add64 (rotate64 (add64 a b) 43) (rotate64 c 30)) d
  let z = hash_len_16 y (add64 (add64 a (rotate64 (add64 b k2) 18)) c) mul
  e0 ← fetch64 s 16
  let e = mul64 e0 mul
  f ← fetch64 s 24
  g0 ← fetch64 s (sub64 len 32)
  let g = mul64 (add64 y g0) mul
  h0 ← fetch64 s (sub64 len 24)
  let h = mul64 (add64 z h0) mul
  some (
      hash_len_16 (add64 (add64 (rotate64 (add64 e f) 43) (rotate64 g 30)) h)
        (add64 (add64 e (rotate64 (add64 f a) 18)) g) mul)

pub record Pair64 : Type 0 where
  pub first : ℕ
  pub second : ℕ

unfoldable pub weak_hash_len_32_with_seeds2 : (w x y z a b : ℕ) → Pair64
weak_hash_len_32_with_seeds2 w x y z a b =
    let a2 = add64 a w in
    let b2 = rotate64 (add64 (add64 b a2) z) 21 in
    let c = a2 in
    let a3 = add64 (add64 a2 x) y in
    let b3 = add64 b2 (rotate64 a3 44) in record { first = add64 a3 z; second = add64 b3 c }

unfoldable pub weak_hash_len_32_with_seeds : List ℕ → ℕ → (a b : ℕ) → Option Pair64
weak_hash_len_32_with_seeds s p a b = do
  w ← fetch64 s p
  x ← fetch64 s (p + 8)
  y ← fetch64 s (p + 16)
  z ← fetch64 s (p + 24)
  some (weak_hash_len_32_with_seeds2 w x y z a b)

-- The macro `swap`.
unfoldable pub swap : ℕ × ℕ → ℕ × ℕ
swap (x, y) = let x1 = bit_xor x y in let y1 = bit_xor x1 y in (bit_xor x1 y1, y1)

-- The variables of the loop of `cfarmhash`.
pub record Seeds : Type 0 where
  pub x : ℕ
  pub y : ℕ
  pub z : ℕ
  pub v : Pair64
  pub w : Pair64

-- The six statements in front of `swap`, which the loop and the end of `cfarmhash` share: they differ
-- in the multiplier and in the factor of `w.second` and `v.first`.
unfoldable pub mix : List ℕ → (p mul factor : ℕ) → Seeds → Option Seeds
mix s p mul factor t = do
  f8 ← fetch64 s (p + 8)
  f48 ← fetch64 s (p + 48)
  f40 ← fetch64 s (p + 40)
  let x = mul64 (rotate64 (add64 (add64 (add64 t.x t.y) t.v.first) f8) 37) mul
  let y = mul64 (rotate64 (add64 (add64 t.y t.v.second) f48) 42) mul
  let x2 = bit_xor x (mul64 t.w.second factor)
  let y2 = add64 y (add64 (mul64 t.v.first factor) f40)
  let z = mul64 (rotate64 (add64 t.z t.w.first) 33) mul
  v ← weak_hash_len_32_with_seeds s p (mul64 t.v.second mul) (add64 x2 t.w.first)
  f16 ← fetch64 s (p + 16)
  w ← weak_hash_len_32_with_seeds s (p + 32) (add64 z t.w.second) (add64 y2 f16)
  let swapped = swap (z, x2)
  some (record { x = swapped.1; y = y2; z = swapped.0; v = v; w = w })

-- `do ... while (s != end)`, on fuel: the state and the position `p` start a round.
unfoldable pub rounds : (fuel : ℕ) → List ℕ → (p end : ℕ) → Seeds → Option Seeds
rounds zero s p end t = none
rounds (suc fuel) s p end t = do
  t2 ← mix s p k1 1 t
  let rest = rounds fuel s (p + 64) end t2
  if p + 64 == end then some t2 else rest

-- The statements behind the loop.
unfoldable pub finish : List ℕ → (len last64 : ℕ) → Seeds → Option ℕ
finish s len last64 t = do
  let mul = add64 k1 (t.z % 256 * 2)
  let w1 = add64 t.w.first (sub64 len 1 % 64)
  let v1 = add64 t.v.first w1
  let w2 = add64 w1 v1
  u ← mix s last64 mul 9 (record t {
    v = record { first = v1; second = t.v.second };
    w = record { first = w2; second = t.w.second };
  })
  some (
      hash_len_16
        (add64 (add64 (hash_len_16 u.v.first u.w.first mul) (mul64 (shift_mix u.y) k0)) u.z)
        (add64 (hash_len_16 u.v.second u.w.second mul) u.x) mul)

-- The seeds of the loop: seed = 81.
unfoldable pub seeds : (word0 : ℕ) → Seeds
seeds word0 =
    let y = add64 (mul64 81 k1) 113 in
    record {
      x = add64 (mul64 81 k2) word0;
      y = y;
      z = mul64 (shift_mix (add64 (mul64 y k2) 113)) k2;
      v = record { first = 0; second = 0 };
      w = record { first = 0; second = 0 };
    }

-- The blocks of 64 bytes bound the rounds.
unfoldable pub hash_blocks : List ℕ → ℕ → Option ℕ
hash_blocks s len = do
  first ← fetch64 s 0
  let end = sub64 len 1 / 64 * 64
  t ← rounds (length s) s 0 end (seeds first)
  finish s len (end + sub64 len 1 % 64 - 63) t

unfoldable pub cfarmhash : List ℕ → ℕ → Option ℕ
cfarmhash s len =
    if leb len 16
    then hash_len_0_to_16 s len
    else if leb len 32
    then hash_len_17_to_32 s len
    else if leb len 64
    then hash_len_33_to_64 s len
    else hash_blocks s len

unfoldable pub hash_data : Data → Option ℕ
hash_data d = cfarmhash (bytes d.iov_base) (Data.size d)

unfoldable pub hash_uint64 : ℕ → ℕ
hash_uint64 v =
    let v1 = bit_xor v (v / 2 ^ 33) in
    let v2 = mul64 v1 0xff51afd7ed558ccd in
    let v3 = bit_xor v2 (v2 / 2 ^ 33) in
    let v4 = mul64 v3 0xc4ceb9fe1a85ec53 in bit_xor v4 (v4 / 2 ^ 33)
