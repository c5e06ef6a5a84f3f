-- ===== src/Buffer.antt =====
-- src/reactor/buffer.c and buffer.h: a growing byte buffer. Every copy inside the block is
-- checked against the block, and leaving it is a fault, `none`.
pub mod Erase
pub mod Files
pub mod Insert
pub mod Valid
use libreactorng.Prelude.{
  ℕ, zero, suc, ◌+◌, ◌-◌, Bool, true, false, Option, none, some, List, [], ◌∷◌, ◌++◌, ◌==◌, ltb,
  if◌then◌else◌, ◌>>=◌, length, take, drop,
}
use libreactorng.Prelude.Words.{sub64, add64, mul64}
use libreactorng.Prelude.Memory.{Pointer, bytes, read, write, move, Allocator}
use libreactorng.Roundup.{fill_all}
use libreactorng.Data
use libreactorng.Data.{Data}

unfoldable pub roundup : ℕ → ℕ
unfolding fill_all
roundup size = add64 (fill_all (sub64 size 1)) 1

-- The source's field `data` is `region` here.
pub record Buffer : Type 0 where
  pub region : Data
  pub capacity : ℕ

unfoldable pub construct : Buffer
unfolding Data.null
construct = record { region = Data.null; capacity = 0 }

unfoldable pub size : Buffer → ℕ
size buffer = buffer.region.iov_len

unfoldable pub base : Buffer → Pointer
base buffer = buffer.region.iov_base

-- The block is handed over to the caller.
unfoldable pub deconstruct : Buffer → Pointer × Buffer
unfolding base construct
deconstruct buffer = (base buffer, construct)

unfoldable pub empty : Buffer → Bool
unfolding size
empty buffer = size buffer == 0

unfoldable pub at : Buffer → ℕ → Pointer
unfolding Data.advance base
at buffer pos = Data.advance (base buffer) pos

unfoldable pub end : Buffer → Pointer
unfolding at size
end buffer = at buffer (size buffer)

unfoldable pub switch : Buffer → Buffer → Buffer × Buffer
switch b1 b2 = (b2, b1)

-- The same buffer over a rewritten block; a copy of no bytes leaves a NULL base as it is.
abbrev pub rewritten : Pointer → List ℕ → Pointer
rewritten none m = none
rewritten (some _) m = some m

abbrev pub over : Buffer → List ℕ → Buffer
over buffer m = record buffer {
  region = record {
    iov_base = rewritten buffer.region.iov_base m;
    iov_len = buffer.region.iov_len;
  };
}

-- An open file: the bytes that are still to be read. `fread` gives what is asked for, or all that
-- is left.
abbrev pub File : Type 0
File = List ℕ

module _ (heap : Allocator) where
  unfoldable pub reserve : Buffer → ℕ → Buffer
  unfolding Data.define size base
  reserve buffer capacity =
      if ltb buffer.capacity capacity
      then record {
        region = Data.define (some (heap.realloc (base buffer) (roundup capacity))) (size buffer);
        capacity = roundup capacity;
      }
      else buffer

  unfoldable pub resize : Buffer → ℕ → Buffer
  unfolding Data.select
  resize buffer n =
      let grown = if ltb buffer.capacity n then reserve buffer n else buffer in
      record grown { region = Data.select grown.region n }

  unfoldable pub compact : Buffer → Buffer
  unfolding size base Data.define Data.null
  compact buffer =
      let n = size buffer in
      if ltb n buffer.capacity
      then record {
        region = if n == 0 then Data.null else Data.define (some (heap.realloc (base buffer) n)) n;
        capacity = n;
      }
      else buffer

  unfoldable pub allocate : Buffer → ℕ → Buffer × Data
  unfolding size
  allocate buffer n =
      let grown = resize buffer (add64 (size buffer) n) in
      (grown, Data.offset grown.region (size buffer))

  -- The gap at `pos`, the copy into it, and the new size, once the room is reserved.
  unfoldable pub splice : Buffer → (pos n : ℕ) → (List ℕ → Option (List ℕ)) → Option Buffer
  splice b pos n copy = do
    m ←
        (if ltb pos b.region.iov_len
          then move (bytes b.region.iov_base) (add64 pos n) pos (sub64 b.region.iov_len pos)
          else some (bytes b.region.iov_base))
    m' ← copy m
    some (resize (over b m') (add64 b.region.iov_len n))

  -- `memcpy` from the slice.
  unfoldable pub copy_in : Data → ℕ → List ℕ → Option (List ℕ)
  copy_in d pos m = do bs ← read (bytes d.iov_base) 0 d.iov_len; write m pos bs

  unfoldable pub insert : Buffer → ℕ → Data → Option Buffer
  unfolding size
  insert buffer pos d =
      splice (reserve buffer (add64 (size buffer) d.iov_len)) pos d.iov_len (copy_in d pos)

  -- for (i = 0; i < count; i++): `left` rounds are left, the next one writes at offset `at`.
  unfoldable pub fill_loop : Data → (left at : ℕ) → List ℕ → Option (List ℕ)
  fill_loop d zero at m = some m
  fill_loop d (suc left) at m = do m' ← copy_in d at m; fill_loop d left (add64 at d.iov_len) m'

  unfoldable pub insert_fill : Buffer → (pos count : ℕ) → Data → Option Buffer
  unfolding size
  insert_fill buffer pos count d =
      let n = mul64 count d.iov_len in
      splice (reserve buffer (add64 (size buffer) n)) pos n (fill_loop d count pos)

  unfoldable pub prepend : Buffer → Data → Option Buffer
  prepend buffer d = insert buffer 0 d

  unfoldable pub append : Buffer → Data → Option Buffer
  unfolding size
  append buffer d = insert buffer (size buffer) d

  unfoldable pub erase : Buffer → (position n : ℕ) → Option Buffer
  unfolding size base
  erase buffer position n = do
    m ←
        move (bytes (base buffer)) position (add64 position n)
          (sub64 (sub64 (size buffer) position) n)
    some (resize (over buffer m) (sub64 (size buffer) n))

  unfoldable pub clear : Buffer → Buffer
  clear buffer = resize buffer 0

  -- do … while (n == 4096), on fuel.
  unfoldable pub read_file : ℕ → Buffer → File → Option Buffer
  unfolding size base
  read_file zero buffer file = none
  read_file (suc fuel) buffer file = do
    let chunk = take 4096 file
    let grown = (allocate buffer 4096).0
    m ← write (bytes (base grown)) (size buffer) chunk
    let b = resize (over grown m) (add64 (sub64 (size grown) 4096) (length chunk))
    let rest = read_file fuel b (drop 4096 file)
    if length chunk == 4096 then rest else some b

  -- `none` is `fopen` failing; the model returns a fault as the outer `none`.
  unfoldable pub load : ℕ → Buffer → Option File → Option (Bool × Buffer)
  load fuel buffer none = some (false, buffer)
  load fuel buffer (some file) = do b ← read_file fuel (clear buffer) file; some (true, compact b)

  unfoldable pub loadz : ℕ → Buffer → Option File → Option (Bool × Buffer)
  unfolding size
  loadz fuel buffer none = some (false, buffer)
  loadz fuel buffer (some file) = do
    b ← read_file fuel (clear buffer) file
    b ← append b (Data.define (some (0 ∷ [])) 1)
    let c = compact b
    some (true, resize c (sub64 (size c) 1))

-- What `fwrite` puts into the file.
unfoldable pub write_file : Buffer → File → Option File
unfolding size base
write_file buffer file = do bs ← read (bytes (base buffer)) 0 (size buffer); some (file ++ bs)

-- `fopen` for writing truncates the file, or fails.
unfoldable pub save : Buffer → (opens : Bool) → Option (Bool × File)
unfolding write_file
save buffer opens =
    if opens then (do file ← write_file buffer []; some (true, file)) else some (false, [])
