-- ===== src/Http/Chunks/Joined.antt =====
-- `http_dechunk`: the data of the chunks, joined at the front of the slice.
use libreactorng.Prelude.{
  ℕ, zero, suc, ◌+◌, ◌-◌, ◌^◌, ◌≤◌, ◌<◌, ◌≡◌, refl, ◌≢◌, Option, none, some, List, [], ◌++◌, ◌==◌,
  if◌then◌else◌, ◌>>=◌, length, take, drop, arith, Bool-cases, inl, inr, lt_or_ge, length-drop,
}
use libreactorng.Http.Chunks
use libreactorng.Http.Chunks.{Parsed, bad, partial, whole}
use libreactorng.Http.Chunks.Sizes.{chunk_size_lem, IsWithin}

-- A chunk of `s`: its data lies in `s`, and the chunk takes two more bytes behind it.
abbrev pub IsChunk : List ℕ → Parsed (ℕ × ℕ) → Type 0
IsChunk s bad = Unit {0}
IsChunk s partial = Unit {0}
IsChunk s (whole n (at, size)) = (0 < at) × (n ≡ at + size + 2) × (n ≤ length s)

chunk_of :
    (s : List ℕ) (r : Parsed ℕ)
    → length s < 2 ^ 63
    → Chunks.chunk_size s ≡ some r
    → IsWithin s r
    → (c : Parsed (ℕ × ℕ)) × (Chunks.chunk s ≡ some c) × IsChunk s c
unfolding Chunks.chunk
chunk_of s bad small e within = (bad, ground (arith, e), tt)
chunk_of s partial small e within = (partial, ground (arith, e), tt)
chunk_of s (whole n size) small e within = elim (lt_or_ge (length s) (n + 2)) [
  | inl less ↦ (partial, ground (arith, e, within, small), tt)
  | inr room ↦ elim (lt_or_ge (length s - n - 2) size) [
    | inl less ↦ (partial, ground (arith, e, within, small), tt)
    | inr fits ↦ (
      whole (n + size + 2) (n, size),
      ground (arith, e, within, small, room, fits),
      (within.0, refl, omega (arith, room, fits, within)),
    )
  ]
]

pub chunk_lem :
    (s : List ℕ)
    → length s < 2 ^ 63
    → (r : Parsed (ℕ × ℕ)) × (Chunks.chunk s ≡ some r) × IsChunk s r
chunk_lem s small = let (r, e, within) = chunk_size_lem s in chunk_of s r small e within

-- One more chunk, of `n` bytes, in front.
abbrev pub in_front : ℕ → List ℕ → Parsed (List ℕ) → Parsed (List ℕ)
in_front n bytes bad = bad
in_front n bytes partial = partial
in_front n bytes (whole m more) = whole (n + m) (bytes ++ more)

-- The data of the chunks up to the empty one, and the bytes that they take.
unfoldable pub joined : (fuel : ℕ) → List ℕ → Option (Parsed (List ℕ))
joined zero s = none
joined (suc fuel) s = Chunks.chunk s >>= λ r. elim r [
  | bad ↦ some bad
  | partial ↦ some partial
  | whole n place ↦
      (let rest = joined fuel (drop n s) in
        if place.1 == 0
        then some (whole n [])
        else rest >>= λ t. some (in_front n (take place.1 (drop place.0 s)) t))
]

-- What `joined` gives for `s`: it takes no more than `s`.
abbrev pub IsJoined : List ℕ → Parsed (List ℕ) → Type 0
IsJoined s bad = Unit {0}
IsJoined s partial = Unit {0}
IsJoined s (whole k bytes) = k ≤ length s

joined_more :
    (fuel : ℕ) (s : List ℕ) (n at size : ℕ) (j : Parsed (List ℕ))
    → Chunks.chunk s ≡ some (whole n (at, size))
    → n ≤ length s
    → size ≢ 0
    → joined fuel (drop n s) ≡ some j
    → IsJoined (drop n s) j
    → (t : Parsed (List ℕ)) × (joined (suc fuel) s ≡ some t) × IsJoined s t
unfolding joined
joined_more fuel s n at size bad e c some_data e' w = (bad, ground (arith, e, e', some_data), tt)
joined_more fuel s n at size partial e c some_data e' w =
    (partial, ground (arith, e, e', some_data), tt)
joined_more fuel s n at size (whole m bytes) e c some_data e' w = (
  whole (n + m) (take size (drop at s) ++ bytes),
  ground (arith, e, e', some_data),
  omega (arith, c, w, length-drop n s),
)

joined_step :
    (fuel : ℕ) (s : List ℕ) (r : Parsed (ℕ × ℕ))
    → Chunks.chunk s ≡ some r
    → IsChunk s r
    → ((n : ℕ)
        → 0 < n
        → n ≤ length s
        → (j : Parsed (List ℕ)) × (joined fuel (drop n s) ≡ some j) × IsJoined (drop n s) j)
    → (t : Parsed (List ℕ)) × (joined (suc fuel) s ≡ some t) × IsJoined s t
unfolding joined
joined_step fuel s bad e c rest = (bad, ground (arith, e), tt)
joined_step fuel s partial e c rest = (partial, ground (arith, e), tt)
joined_step fuel s (whole n (at, size)) e (some_head, sum, within) rest =
    elim (Bool-cases (size == 0)) [
      | inl none_left ↦ (whole n [], ground (arith, e, none_left), within)
      | inr some_data ↦
          (let (j, e', w) = rest n (omega (arith, some_head, sum)) within in
            joined_more fuel s n at size j e within (ground (arith, some_data)) e' w)
    ]

pub joined_total :
    (fuel : ℕ) (s : List ℕ)
    → length s < fuel
    → length s < 2 ^ 63
    → (j : Parsed (List ℕ)) × (joined fuel s ≡ some j) × IsJoined s j
joined_total zero s h small = absurd (omega arith)
joined_total (suc fuel) s h small =
    let (r, e, c) = chunk_lem s small in
    joined_step fuel s r e c (λ n some_head within.
      joined_total fuel (drop n s) (omega (arith, some_head, within, h, length-drop n s))
        (omega (arith, small, length-drop n s)))
