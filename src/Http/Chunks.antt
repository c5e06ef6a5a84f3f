-- ===== src/Http/Chunks.antt =====
-- The chunked transfer coding of src/reactor/http.c. The input is the list of the slice's bytes: a
-- read or a move that leaves the slice is a fault. A pointer is what is left from it on.
pub mod Dechunked
pub mod Gathered
pub mod Whole
pub mod Sizes
pub mod Joined
use libreactorng.Prelude.{
  ℕ, zero, suc, ◌+◌, ◌-◌, ◌^◌, Bool, true, false, not, Option, none, some, List, [], ◌∷◌, ◌==◌, ltb,
  leb, if◌then◌else◌, ◌>>=◌, ◌||◌, length, drop,
}
use libreactorng.Prelude.Words.{add64, sub64}
use libreactorng.Prelude.Memory.{move}
use libreactorng.Prelude.Numerals.{isblank, strtoul}
use libreactorng.Strings.Utf8.{isxdigit}

-- What the functions return in a `ssize_t`: -1, 0 for more input, or a number of bytes, which comes
-- with the value in the function's last argument.
pub data Parsed (A : Type 0) : Type 0 where
  bad : Parsed A
  partial : Parsed A
  whole : ℕ → A → Parsed A

-- `memchr(.., '\n', ..)` is not NULL.
unfoldable pub has_newline : List ℕ → Bool
has_newline [] = false
has_newline (c ∷ s) = c == 10 || has_newline s

-- `while (test(*p)) p++`
unfoldable pub skip : (ℕ → Bool) → List ℕ → Option (List ℕ)
skip test [] = none
skip test (c ∷ p) = let rest = skip test p in if test c then rest else some (c ∷ p)

-- `while (*p != '\n') p++`, with `p[-1]`.
unfoldable pub line_end : (before : ℕ) → List ℕ → Option (ℕ × List ℕ)
line_end before [] = none
line_end before (c ∷ p) = let rest = line_end c p in if c == 10 then some (before, c ∷ p) else rest

-- `*p`
unfoldable pub head : List ℕ → Option ℕ
head [] = none
head (c ∷ p) = some c

-- The line feed at `p`, and the value of the digits.
unfoldable pub size_end : (start digits p : List ℕ) → Option (Parsed ℕ)
unfolding head
size_end start digits p = do
  c ← head p
  if not (c == 10) then some bad else (do
    size ← strtoul 16 digits
    some (if size == 2 ^ 64 - 1 then bad else whole (length start - length (drop 1 p)) size))

-- Behind the digits: an extension, or a carriage return.
unfoldable pub size_line : (start digits p : List ℕ) → Option (Parsed ℕ)
unfolding head
size_line start digits p = do
  c ← head p
  if c == b';'
      then (do e ← line_end 0 p; if not (e.0 == 13) then some bad else size_end start digits e.1)
      else if not (c == 13)
      then some bad
      else size_end start digits (drop 1 p)

unfoldable pub chunk_size : List ℕ → Option (Parsed ℕ)
chunk_size input = if not (has_newline input) then some partial else (do
  digits ← skip isblank input
  p ← skip isxdigit digits
  if length p == length digits
      then some bad
      else (skip isblank p >>= λ q. size_line input digits q))

-- The place and the size of the chunk's data.
unfoldable pub chunk : List ℕ → Option (Parsed (ℕ × ℕ))
chunk input = chunk_size input >>= λ r. elim r [
  | bad ↦ some bad
  | partial ↦ some partial
  | whole n size ↦
      if ltb (length input) (add64 n 2)
      then some partial
      else if ltb (sub64 (sub64 (length input) n) 2) size
      then some partial
      else some (whole (add64 (add64 size n) 2) (n, size))
]

-- The first loop: the chunks up to the empty one are there, and end at the offset.
unfoldable pub scan : (fuel : ℕ) → List ℕ → (offset : ℕ) → Option (Parsed (Unit {0}))
scan zero input offset = none
scan (suc fuel) input offset = chunk (drop offset input) >>= λ r. elim r [
  | bad ↦ some bad
  | partial ↦ some partial
  | whole n place ↦
      (let rest = scan fuel input (add64 offset n) in
        if place.1 == 0 then some (whole (add64 offset n) tt) else rest)
]

-- The second loop moves the data of the chunks together: the memory, the size of the data, and the
-- offset. It does not look for errors again: an error is a fault here.
unfoldable pub gather : (fuel : ℕ) → List ℕ → (offset size : ℕ) → Option (List ℕ × ℕ × ℕ)
gather zero input offset size = none
gather (suc fuel) input offset size = chunk (drop offset input) >>= λ r. elim r [
  | bad ↦ none
  | partial ↦ none
  | whole n place ↦
      (move input size (offset + place.0) place.1 >>= λ moved.
      let rest = gather fuel moved (add64 offset n) (size + place.1) in
      if place.1 == 0 then some (moved, size + place.1, add64 offset n) else rest)
]

-- The memory behind the call, and with the end of the chunks the size of the data, which are in front
-- of the memory.
unfoldable pub dechunk : List ℕ → Option (List ℕ × Parsed ℕ)
dechunk input = scan (suc (length input)) input 0 >>= λ r. elim r [
  | bad ↦ some (input, bad)
  | partial ↦ some (input, partial)
  | whole n u ↦ gather (suc (length input)) input 0 0 >>= λ g. some (g.0, whole g.2 g.1)
]
