-- ===== src/Http/Chunks/Gathered.antt =====
-- The second loop of `http_dechunk`, which moves the data over the sizes in front of it, and the
-- function as a whole.
use libreactorng.Prelude.{
  ℕ, zero, suc, ◌+◌, ◌-◌, ◌^◌, ◌≤◌, ◌<◌, ◌≡◌, sym, subst, ◌≢◌, ap, ap₂, ◌∙◌, some, List, [], ◌++◌,
  ltb, if◌then◌else◌, length, take, drop, arith, length-drop, length-take, length-append, get_elem?,
  get_elem?_ext, get_elem?-drop, get_elem?-take, get_elem?-append, append_assoc,
}
use libreactorng.Prelude.Words.{add64}
use libreactorng.Prelude.Memory.{move, move_lem}
use libreactorng.Http.Chunks
use libreactorng.Http.Chunks.{Parsed, bad, partial, whole}
use libreactorng.Http.Chunks.Joined.{IsChunk, chunk_lem, joined, in_front}
use libreactorng.Http.Chunks.Dechunked.{drop-drop, joined_inv, joined_last}

-- The memory `m` while the loop is at `offset`: the data so far in front, the input from there on.
pub record Moved (s m : List ℕ) (offset size : ℕ) (bytes : List ℕ) : Type 0 where
  pub same : length m ≡ length s
  pub rest : drop offset m ≡ drop offset s
  pub front : take size m ≡ bytes
  pub behind : size ≤ offset

moved_front :
    (m m1 : List ℕ) (size from count : ℕ)
    → size ≤ length m
    → ((j : ℕ)
        → get_elem? m1 j ≡ (
            if ltb j size
            then get_elem? m j
            else if ltb j (size + count)
            then get_elem? m (from + (j - size))
            else get_elem? m j))
    → take (size + count) m1 ≡ take size m ++ take count (drop from m)
moved_front m m1 size from count room reads = get_elem?_ext _ _ (λ i. ground (
  arith,
  get_elem?-take (size + count) m1 i,
  reads i,
  get_elem?-append (take size m) (take count (drop from m)) i,
  get_elem?-take size m i,
  length-take size m,
  get_elem?-take count (drop from m) (i - size),
  get_elem?-drop from m (i - size),
))

move_step :
    (s m : List ℕ) (offset size at n count : ℕ) (bytes : List ℕ)
    → Moved s m offset size bytes
    → at + count ≤ n
    → offset + n ≤ length s
    → (m1 : List ℕ) × (move m size (offset + at) count ≡ some m1)
      × Moved s m1 (offset + n) (size + count) (bytes ++ take count (drop at (drop offset s)))
move_step s m offset size at n count bytes v inside fits =
    let (m1, e, same, reads) =
      move_lem m size (offset + at) count (omega (arith, v.same, inside, fits))
        (omega (arith, v.same, v.behind, inside, fits)) in
    (
      m1,
      e,
      record {
        same = same ∙ v.same;
        rest =
            get_elem?_ext _ _ (λ i. ground (
              arith,
              get_elem?-drop (offset + n) m1 i,
              reads (offset + n + i),
              v.behind,
              inside,
              get_elem?-drop (offset + n) m i,
            ))
            ∙ (sym (drop-drop n offset m) ∙ ap (drop n) v.rest ∙ drop-drop n offset s);
        front =
            moved_front m m1 size (offset + at) count
              (omega (arith, v.same, v.behind, inside, fits)) reads
            ∙ ap (λ t. take size m ++ take count t) (sym (drop-drop at offset m))
            ∙ ap₂ (λ a b. a ++ take count (drop at b)) v.front v.rest;
        behind = omega (arith, v.behind, inside);
      },
    )

module _ (s : List ℕ) (small : length s < 2 ^ 63) where
  -- What the loop leaves behind when it has moved `more` from the `k` bytes at `offset`.
  unfoldable pub Gathers :
      (fuel : ℕ) (m : List ℕ) (offset size k : ℕ) (bytes more : List ℕ) → Type 0
  Gathers fuel m offset size k bytes more =
      (m' : List ℕ) × (Chunks.gather fuel m offset size ≡ some (m', size + length more, offset + k))
      × Moved s m' (offset + k) (size + length more) (bytes ++ more)

  gather_last :
      (fuel : ℕ) (m : List ℕ) (offset size at n : ℕ) (bytes : List ℕ)
      → Moved s m offset size bytes
      → Chunks.chunk (drop offset s) ≡ some (whole n (at, 0))
      → IsChunk (drop offset s) (whole n (at, 0))
      → offset ≤ length s
      → Gathers (suc fuel) m offset size n bytes []
  unfolding Gathers Chunks.gather
  gather_last fuel m offset size at n bytes v e c inside =
      let left = length-drop offset s in
      let (m1, moved, v1) =
        move_step s m offset size at n 0 bytes v (omega (arith, c))
          (omega (arith, c, inside, left)) in
      let found = ap Chunks.chunk v.rest ∙ e in
      let next : add64 offset n ≡ offset + n = omega (arith, c, small, inside, left) in
      (m1, ground (arith, found, moved, next), v1)

  gather_more :
      (fuel : ℕ) (m : List ℕ) (offset size at n count k : ℕ) (bytes more : List ℕ)
      → Moved s m offset size bytes
      → Chunks.chunk (drop offset s) ≡ some (whole n (at, count))
      → IsChunk (drop offset s) (whole n (at, count))
      → offset ≤ length s
      → count ≢ 0
      → ((m1 : List ℕ)
          → Moved s m1 (offset + n) (size + count) (bytes ++ take count (drop at (drop offset s)))
          → Gathers fuel m1
              (offset + n)
              (size + count)
              k
              (bytes ++ take count (drop at (drop offset s)))
              more)
      → Gathers
          (suc fuel)
          m
          offset
          size
          (n + k)
          bytes
          (take count (drop at (drop offset s)) ++ more)
  unfolding Gathers Chunks.gather
  gather_more fuel m offset size at n count k bytes more v e c inside some_data later =
      let left = length-drop offset s in
      let (m1, moved, v1) =
        move_step s m offset size at n count bytes v (omega (arith, c))
          (omega (arith, c, inside, left)) in
      let found = ap Chunks.chunk v.rest ∙ e in
      let next : add64 offset n ≡ offset + n = omega (arith, c, small, inside, left) in
      let (m', e', v') = later m1 v1 in
      let data_here = take count (drop at (drop offset s)) in
      let taken : length data_here ≡ count =
        omega
          (arith, length-take count (drop at (drop offset s)), length-drop at (drop offset s), c) in
      let sizes : size + count + length more ≡ size + length (data_here ++ more) =
        omega (arith, length-append data_here more, taken) in
      let ends : offset + n + k ≡ offset + (n + k) = omega arith in
      (
        m',
        ground (arith, found, moved, next, some_data)
            ∙ e'
            ∙ ap₂ (λ a b. some (m', a, b)) sizes ends,
        subst (λ o. Moved s m' o (size + length (data_here ++ more)) (bytes ++ (data_here ++ more)))
            ends
            (subst (λ z. Moved s m' (offset + n + k) z (bytes ++ (data_here ++ more))) sizes
              (subst (Moved s m' (offset + n + k) (size + count + length more))
                (append_assoc bytes data_here more) v')),
      )

  gather_next :
      (fuel : ℕ) (m : List ℕ) (offset size k : ℕ) (bytes more : List ℕ) (n at count : ℕ)
      (j : Parsed (List ℕ))
      → Moved s m offset size bytes
      → offset ≤ length s
      → Chunks.chunk (drop offset s) ≡ some (whole n (at, suc count))
      → IsChunk (drop offset s) (whole n (at, suc count))
      → whole k more ≡ in_front n (take (suc count) (drop at (drop offset s))) j
      → joined fuel (drop n (drop offset s)) ≡ some j
      → ((m1 : List ℕ) (offset1 size1 k1 : ℕ) (bytes1 more1 : List ℕ)
          → Moved s m1 offset1 size1 bytes1
          → joined fuel (drop offset1 s) ≡ some (whole k1 more1)
          → offset1 ≤ length s
          → Gathers fuel m1 offset1 size1 k1 bytes1 more1)
      → Gathers (suc fuel) m offset size k bytes more
  gather_next fuel m offset size k bytes more n at count bad v inside e c same e' later =
      ground (arith, same)
  gather_next fuel m offset size k bytes more n at count partial v inside e c same e' later =
      ground (arith, same)
  gather_next fuel m offset size k bytes more n at count (whole k' more') v inside e c same e'
        later =
      let data_here = take (suc count) (drop at (drop offset s)) in
      let ends : n + k' ≡ k = ground (arith, same) in
      let all : data_here ++ more' ≡ more = ground (arith, same) in
      subst (λ x. Gathers (suc fuel) m offset size x bytes more) ends
        (subst (Gathers (suc fuel) m offset size (n + k') bytes) all (
          gather_more fuel m offset size at n (suc count) k' bytes more' v e c inside
            (λ z. omega (arith, z))
            (λ m1 v1.
              later m1 (offset + n) (size + suc count) k' (bytes ++ data_here) more' v1
                (ap (joined fuel) (sym (drop-drop n offset s)) ∙ e')
                (omega (arith, c, inside, length-drop offset s)))))

  -- The induction over the chunks, at the first of them.
  gather_step :
      (fuel : ℕ) (m : List ℕ) (offset size k : ℕ) (bytes more : List ℕ) (r : Parsed (ℕ × ℕ))
      → Moved s m offset size bytes
      → joined (suc fuel) (drop offset s) ≡ some (whole k more)
      → offset ≤ length s
      → Chunks.chunk (drop offset s) ≡ some r
      → IsChunk (drop offset s) r
      → ((m1 : List ℕ) (offset1 size1 k1 : ℕ) (bytes1 more1 : List ℕ)
          → Moved s m1 offset1 size1 bytes1
          → joined fuel (drop offset1 s) ≡ some (whole k1 more1)
          → offset1 ≤ length s
          → Gathers fuel m1 offset1 size1 k1 bytes1 more1)
      → Gathers (suc fuel) m offset size k bytes more
  unfolding joined
  gather_step fuel m offset size k bytes more bad v j inside e c later = ground (arith, j, e)
  gather_step fuel m offset size k bytes more partial v j inside e c later = ground (arith, j, e)
  gather_step fuel m offset size k bytes more (whole n (at, zero)) v j inside e c later =
      let last = joined_last fuel (drop offset s) n at (whole k more) j e in
      let ends : n ≡ k = ground (arith, last) in
      let empty : [] ≡ more = ground (arith, last) in
      subst (λ x. Gathers (suc fuel) m offset size x bytes more) ends
        (subst (Gathers (suc fuel) m offset size n bytes) empty
          (gather_last fuel m offset size at n bytes v e c inside))
  gather_step fuel m offset size k bytes more (whole n (at, suc count)) v j inside e c later =
      let (j', e', same) =
        joined_inv fuel (drop offset s) n at (suc count) (whole k more) j e
          (λ z. omega (arith, z)) in
      gather_next fuel m offset size k bytes more n at count j' v inside e c same e' later

  pub gather_lem :
      (fuel : ℕ) (m : List ℕ) (offset size k : ℕ) (bytes more : List ℕ)
      → Moved s m offset size bytes
      → joined fuel (drop offset s) ≡ some (whole k more)
      → offset ≤ length s
      → Gathers fuel m offset size k bytes more
  unfolding joined
  gather_lem zero m offset size k bytes more v j inside = ground (arith, j)
  gather_lem (suc fuel) m offset size k bytes more v j inside =
      let (r, e, c) = chunk_lem (drop offset s) (omega (arith, small, length-drop offset s)) in
      gather_step fuel m offset size k bytes more r v j inside e c
        (λ m1 offset1 size1 k1 bytes1 more1 v1 j1 inside1.
          gather_lem fuel m1 offset1 size1 k1 bytes1 more1 v1 j1 inside1)
