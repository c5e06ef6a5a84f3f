-- ===== src/Tests/Buffers.antt =====
-- buffer.c at a buffer of capacity 4 that holds three bytes.
use libreactorng.Prelude.{
  ℕ, ◌+◌, ◌-◌, ◌*◌, ◌^◌, ◌≤◌, ◌<◌, ◌≡◌, refl, max, Option, some, List, [], ◌∷◌, ◌++◌, arith, take,
  drop, get_elem?,
}
use libreactorng.Data.{Data}
use libreactorng.Data.Laws as DataLaws
use libreactorng.Prelude.Memory.{move, read, write}
use libreactorng.Buffer
use libreactorng.Buffer.{Buffer}
use libreactorng.Buffer.Valid.{IsValid, contents, reserve_lem, resize_lem, compact_lem, roundup_lem}
use libreactorng.Buffer.Insert.{insert_lem, insert_fill_lem, repeated}
use libreactorng.Buffer.Erase.{erase_lem}
use libreactorng.Buffer.Files.{read_file_lem}
use libreactorng.Tests.{plain}

abbrev word : Data
word = record { iov_base = some (b'x' ∷ b'y' ∷ []); iov_len = 2 }

abbrev abc : Buffer
abc = record {
  region = record { iov_base = some (b'a' ∷ b'b' ∷ b'c' ∷ 0xAA ∷ []); iov_len = 3 };
  capacity = 4;
}

abc-IsValid : IsValid abc
abc-IsValid = omega arith

word-IsValid : DataLaws.IsValid word
word-IsValid = omega arith

abbrev outcome : Option Buffer → Option (List ℕ × ℕ)
outcome b = elim b [ Option.none ↦ Option.none | some c ↦ some (contents c, c.capacity) ]

insert_runs :
    outcome (Buffer.insert plain abc 1 word) ≡ some (b'a' ∷ b'x' ∷ b'y' ∷ b'b' ∷ b'c' ∷ [], 8)
unfolding Buffer.insert Buffer.splice Buffer.copy_in Buffer.reserve Buffer.resize Buffer.roundup
    move read write
insert_runs = refl

insert_lem_example :
    (b : Buffer) × (Buffer.insert plain abc 1 word ≡ some b)
    × IsValid b
    × (contents b ≡ take 1 (contents abc) ++ (DataLaws.contents word ++ drop 1 (contents abc)))
insert_lem_example =
    insert_lem plain abc 1 word abc-IsValid word-IsValid (omega arith) (omega arith)

insert_fill_lem_example :
    (b : Buffer) × (Buffer.insert_fill plain abc 1 3 word ≡ some b)
    × IsValid b
    × (contents b
        ≡ take 1 (contents abc) ++ (repeated 3 (DataLaws.contents word) ++ drop 1 (contents abc)))
insert_fill_lem_example =
    insert_fill_lem plain abc 1 3 word abc-IsValid word-IsValid (omega arith) (omega arith)

erase_lem_example :
    (b : Buffer) × (Buffer.erase plain abc 1 1 ≡ some b)
    × IsValid b
    × (contents b ≡ take 1 (contents abc) ++ drop (1 + 1) (contents abc))
erase_lem_example = erase_lem plain abc 1 1 abc-IsValid (omega arith)

read_file_lem_example :
    (b : Buffer) × (Buffer.read_file plain 1 abc (b'd' ∷ b'e' ∷ []) ≡ some b)
    × IsValid b
    × (contents b ≡ contents abc ++ (b'd' ∷ b'e' ∷ []))
read_file_lem_example =
    read_file_lem plain 1 abc (b'd' ∷ b'e' ∷ []) abc-IsValid (omega arith) (omega arith)

reserve_lem_example :
    IsValid (Buffer.reserve plain abc 5)
    × (5 ≤ (Buffer.reserve plain abc 5).capacity)
    × ((Buffer.reserve plain abc 5).region.iov_len ≡ 3)
    × (contents (Buffer.reserve plain abc 5) ≡ contents abc)
reserve_lem_example = reserve_lem plain abc 5 abc-IsValid (omega arith)

resize_lem_example :
    IsValid (Buffer.resize plain abc 6)
    × ((Buffer.resize plain abc 6).region.iov_len ≡ 6)
    × ((i : ℕ)
        → i < 3
        → i < 6
        → get_elem? (contents (Buffer.resize plain abc 6)) i ≡ get_elem? (contents abc) i)
resize_lem_example = resize_lem plain abc 6 abc-IsValid (omega arith)

compact_lem_example :
    IsValid (Buffer.compact plain abc)
    × ((Buffer.compact plain abc).capacity ≡ 3)
    × (contents (Buffer.compact plain abc) ≡ contents abc)
compact_lem_example = compact_lem plain abc abc-IsValid

roundup_lem_example :
    (k : ℕ) × (Buffer.roundup 5 ≡ 2 ^ k)
    × (5 ≤ 2 ^ k)
    × (2 ^ k ≤ max 1 (2 * (5 - 1)))
    × (2 ^ k ≤ 2 ^ 63)
roundup_lem_example = roundup_lem 5 (omega arith) (omega arith)
