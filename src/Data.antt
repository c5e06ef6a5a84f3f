-- ===== src/Data.antt =====
-- src/reactor/data.c and data.h: slices of memory, `data_t`. The pointer is `none` for NULL, and
-- else the bytes from where it points to the end of its object.
pub mod Laws
use Prim.Native.Nat.{Ordering}
use libreactorng.Prelude.{
  ℕ, zero, suc, ◌+◌, ◌-◌, ◌≤◌, Bool, true, false, Option, none, some, List, [], ◌∷◌, ◌++◌, ◌==◌,
  ltb, leb, if◌then◌else◌, ◌>>=◌, length, take, drop, replicate, ◌&&◌,
}
use libreactorng.Prelude.Words.{sub64, add64}
use libreactorng.Prelude.Int.{ℤ, pos, negsuc, sub_ℕ}
use libreactorng.Prelude.Memory.{Pointer, bytes, read, write, compare_bytes, Allocator}

pub record Data : Type 0 where
  pub iov_base : Pointer
  pub iov_len : ℕ

-- `toupper` of the C locale.
unfoldable pub toupper : ℕ → ℕ
toupper c = if leb b'a' c && leb c b'z' then c - 32 else c

-- `char` arguments; the loop stops at the first difference and returns it.
unfoldable pub memcasecmp : List ℕ → List ℕ → ℕ → Option ℤ
unfolding toupper
memcasecmp s1 s2 zero = some (pos 0)
memcasecmp [] s2 (suc n) = none
memcasecmp (u1 ∷ s1) [] (suc n) = none
memcasecmp (u1 ∷ s1) (u2 ∷ s2) (suc n) =
    let rest = memcasecmp s1 s2 n in
    if toupper u1 == toupper u2 then rest else some (sub_ℕ (toupper u1) (toupper u2))

unfoldable pub define : Pointer → ℕ → Data
define base size = record { iov_base = base; iov_len = size }

unfoldable pub null : Data
null = record { iov_base = none; iov_len = 0 }

-- The distance to the first NUL.
unfoldable pub strlen : List ℕ → Option ℕ
strlen [] = none
strlen (c ∷ s) = let rest = strlen s in if c == 0 then some 0 else (rest >>= λ n. some (suc n))

unfoldable pub string : List ℕ → Option Data
unfolding strlen define
string chars = do n ← strlen chars; some (define (some chars) n)

unfoldable pub size : Data → ℕ
size d = d.iov_len

unfoldable pub empty : Data → Bool
unfolding size
empty d = size d == 0

-- Pointer arithmetic: `(char *) p + n`.
unfoldable pub advance : Pointer → ℕ → Pointer
advance none n = none
advance (some m) n = some (drop n m)

unfoldable pub offset : Data → ℕ → Data
unfolding define advance
offset d n = define (advance d.iov_base n) (sub64 d.iov_len n)

unfoldable pub select : Data → ℕ → Data
unfolding define
select d n = define d.iov_base n

unfoldable pub end : Data → Pointer
unfolding advance
end d = advance d.iov_base d.iov_len

unfoldable pub equal : Data → Data → Option Bool
unfolding read compare_bytes
equal d1 d2 =
    if d1.iov_len == d2.iov_len
    then (do
      b1 ← read (bytes d1.iov_base) 0 d1.iov_len
      b2 ← read (bytes d2.iov_base) 0 d1.iov_len
      some (elim (compare_bytes b1 b2) [ Ordering.eq ↦ true | _ ↦ false ]))
    else some false

unfoldable pub is_zero : ℤ → Bool
is_zero (pos n) = n == 0
is_zero (negsuc n) = false

unfoldable pub equal_case : Data → Data → Option Bool
unfolding memcasecmp is_zero
equal_case d1 d2 =
    if d1.iov_len == d2.iov_len
    then (do
      diff ← memcasecmp (bytes d1.iov_base) (bytes d2.iov_base) d1.iov_len
      some (is_zero diff))
    else some false

module _ (heap : Allocator) where
  unfoldable pub copy : Data → Option Data
  unfolding read write define
  copy from = do
    m ← read (bytes from.iov_base) 0 from.iov_len
    to ← write (heap.malloc from.iov_len) 0 m
    some (define (some to) from.iov_len)

  unfoldable pub copyz : Data → Option Data
  unfolding read write define
  copyz from = do
    m ← read (bytes from.iov_base) 0 from.iov_len
    to ← write (heap.malloc (add64 from.iov_len 1)) 0 m
    terminated ← write to from.iov_len (0 ∷ [])
    some (define (some terminated) from.iov_len)

  unfoldable pub alloc : ℕ → Data
  unfolding define
  alloc n = define (some (replicate n 0)) n

  unfoldable pub realloc : Data → ℕ → Data
  unfolding define
  realloc d n = define (some (heap.realloc d.iov_base n)) n
