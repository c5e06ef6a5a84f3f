-- ===== src/Buffer/Insert.antt =====
-- src/reactor/buffer.c's insertions as operations on the list of bytes. None of
-- them leaves the block while the sizes stay at most 2 ^ 63.
use libreactorng.Prelude.{
  ℕ, zero, suc, ◌+◌, ◌-◌, ◌^◌, ◌≤◌, ◌<◌, ◌≡◌, refl, ◌∙◌, ap, ap₂, subst, append-nil, take-length,
  Option, none, some, List, [], ◌∷◌, ◌++◌, ltb, if◌then◌else◌, ◌>>=◌, length, take, drop, arith,
  get_elem?, length-take, length-append, get_elem?_ext, get_elem?-take, get_elem?-drop,
  get_elem?-append, get_elem?-past, inl, inr, lt_or_ge, lt→ltb, le→ltb, ◌*◌,
}
use libreactorng.Prelude.Words.{sub64, add64, mul64}
use libreactorng.Prelude.Memory.{Pointer, bytes, move, Allocator, write_lem, move_lem}
use libreactorng.Data
use libreactorng.Data.{Data}
use libreactorng.Data.Laws as DataLaws
use libreactorng.Buffer
use libreactorng.Buffer.{Buffer}
use libreactorng.Buffer.Valid.{IsValid, contents, length-contents, reserve_lem, resize_within}

-- `bs`, `count` times over.
abbrev pub repeated : ℕ → List ℕ → List ℕ
repeated zero bs = []
repeated (suc count) bs = bs ++ repeated count bs

length-repeated : (count : ℕ) (bs : List ℕ) → length (repeated count bs) ≡ count * length bs
length-repeated zero bs = omega arith
length-repeated (suc count) bs =
    omega (arith, length-append bs (repeated count bs), length-repeated count bs)

pub bytes-rewritten :
    (p : Pointer) (m : List ℕ) → length m ≡ length (bytes p) → bytes (Buffer.rewritten p m) ≡ m
bytes-rewritten none [] h = refl
bytes-rewritten none (x ∷ m) h = absurd (omega arith)
bytes-rewritten (some _) m h = refl

module _ (heap : Allocator) where
  -- What a copy into the gap has to do: succeed, keep the size, and write `bs` at `pos`.
  abbrev Places : (List ℕ → Option (List ℕ)) → ℕ → List ℕ → Type 0
  Places copy pos bs =
      (m : List ℕ)
      → pos + length bs ≤ length m
      → length m ≤ 2 ^ 63
      → (m' : List ℕ) × (copy m ≡ some m')
        × (length m' ≡ length m)
        × ((j : ℕ)
            → get_elem? m' j ≡ (
                if ltb j pos
                then get_elem? m j
                else if ltb j (pos + length bs)
                then get_elem? bs (j - pos)
                else get_elem? m j))

  copy_in-Places :
      (d : Data) (pos : ℕ)
      → DataLaws.IsValid d
      → Places (Buffer.copy_in heap d pos) pos (DataLaws.contents d)
  unfolding Buffer.copy_in
  copy_in-Places d pos v m h small =
      rw (DataLaws.read-contents d v) (write_lem m pos (DataLaws.contents d) h)

  -- Making the gap moves the bytes from `pos` on up by `n`.
  gap :
      (b : Buffer) (pos n : ℕ)
      → IsValid b
      → pos ≤ b.region.iov_len
      → b.region.iov_len + n ≤ b.capacity
      → (m : List ℕ) × ((if ltb pos b.region.iov_len
            then move (bytes b.region.iov_base) (add64 pos n) pos (sub64 b.region.iov_len pos)
            else some (bytes b.region.iov_base))
          ≡ some m)
        × (length m ≡ b.capacity)
        × ((j : ℕ) → j < pos → get_elem? m j ≡ get_elem? (bytes b.region.iov_base) j)
        × ((j : ℕ)
            → pos + n ≤ j
            → j < b.region.iov_len + n
            → get_elem? m j ≡ get_elem? (bytes b.region.iov_base) (j - n))
  gap b pos n v inside fits = elim (lt_or_ge pos b.region.iov_len) [
    | inl before ↦
        let to : add64 pos n ≡ pos + n = omega (arith, v.small) in
        let count : sub64 b.region.iov_len pos ≡ b.region.iov_len - pos =
          omega (arith, v.small, v.inside) in
        let (m, e, len, at) =
          move_lem (bytes b.region.iov_base) (pos + n) pos (b.region.iov_len - pos)
            (omega (arith, v.owns, v.inside)) (omega (arith, v.owns)) in
        rw (lt→ltb pos b.region.iov_len before, to, count)
          (m, e, len ∙ v.owns, (λ j p. ground (arith, at j)), (λ j p q. ground (arith, at j)))
    | inr last ↦
        rw (le→ltb pos b.region.iov_len last)
          (bytes b.region.iov_base, refl, v.owns, (λ j p. refl), (λ j p q. absurd (omega arith)))
  ]

  -- Both sides of the splice at one index.
  spliced_at :
      (b : Buffer) (pos : ℕ) (bs m : List ℕ) (i : ℕ)
      → IsValid b
      → pos ≤ b.region.iov_len
      → (i < pos → get_elem? m i ≡ get_elem? (bytes b.region.iov_base) i)
      → (pos ≤ i → i < pos + length bs → get_elem? m i ≡ get_elem? bs (i - pos))
      → (pos + length bs ≤ i
          → i < b.region.iov_len + length bs
          → get_elem? m i ≡ get_elem? (bytes b.region.iov_base) (i - length bs))
      → get_elem? (take (b.region.iov_len + length bs) m) i
        ≡ get_elem? (take pos (contents b) ++ (bs ++ drop pos (contents b))) i
  spliced_at b pos bs m i v inside low mid high = ground (
    arith,
    get_elem?-take (b.region.iov_len + length bs) m i,
    get_elem?-append (take pos (contents b)) (bs ++ drop pos (contents b)) i,
    get_elem?-append bs (drop pos (contents b)) (i - pos),
    get_elem?-take pos (contents b) i,
    get_elem?-drop pos (contents b) (i - pos - length bs),
    get_elem?-take b.region.iov_len (bytes b.region.iov_base) i,
    get_elem?-take b.region.iov_len (bytes b.region.iov_base) (i - length bs),
    length-take pos (contents b),
    length-contents b v,
  )

  splice_lem :
      (b : Buffer) (pos : ℕ) (copy : List ℕ → Option (List ℕ)) (bs : List ℕ)
      → IsValid b
      → Places copy pos bs
      → pos ≤ b.region.iov_len
      → b.region.iov_len + length bs ≤ b.capacity
      → (b' : Buffer) × (Buffer.splice heap b pos (length bs) copy ≡ some b')
        × IsValid b'
        × (contents b' ≡ take pos (contents b) ++ (bs ++ drop pos (contents b)))
  unfolding Buffer.splice Data.define
  splice_lem b pos copy bs v places inside fits =
      let (m, e, len, front, back) = gap b pos (length bs) v inside fits in
      let (m', e', len', at) = places m (omega (arith, len)) (omega (arith, len, v.small)) in
      let total : add64 b.region.iov_len (length bs) ≡ b.region.iov_len + length bs =
        omega (arith, v.small) in
      let held : bytes (Buffer.rewritten b.region.iov_base m') ≡ m' =
        bytes-rewritten b.region.iov_base m' (omega (arith, len', len, v.owns)) in
      rw (e, e', total, resize_within heap (Buffer.over b m') (b.region.iov_len + length bs) fits)
        (
          record b {
            region =
                Data.define (Buffer.rewritten b.region.iov_base m') (b.region.iov_len + length bs);
          },
          refl,
          record {
            owns = ap (λ (l : List ℕ). length l) held ∙ (len' ∙ len);
            inside = fits;
            small = v.small;
          },
          rw held (
              get_elem?_ext _ _ (λ i.
                spliced_at b pos bs m' i v inside (λ p. ground (arith, at i, front i))
                  (λ p q. ground (arith, at i)) (λ p q. ground (arith, at i, back i)))),
        )

  -- Inserting a valid slice at a position inside a buffer, the sizes together at most 2 ^ 63,
  -- returns a valid buffer: its bytes are those before the position, the slice's, and the rest.
  pub insert_lem :
      (b : Buffer) (pos : ℕ) (d : Data)
      → IsValid b
      → DataLaws.IsValid d
      → pos ≤ b.region.iov_len
      → b.region.iov_len + d.iov_len ≤ 2 ^ 63
      → (b' : Buffer) × (Buffer.insert heap b pos d ≡ some b')
        × IsValid b'
        × (contents b' ≡ take pos (contents b) ++ (DataLaws.contents d ++ drop pos (contents b)))
  unfolding Buffer.insert
  insert_lem b pos d v vd inside fits =
      let total : add64 b.region.iov_len d.iov_len ≡ b.region.iov_len + d.iov_len = omega arith in
      let (v', room, same_size, same) = reserve_lem heap b (b.region.iov_len + d.iov_len) v fits in
      let count : length (DataLaws.contents d) ≡ d.iov_len = DataLaws.length-contents d vd in
      let (b', e, v'', c) =
        splice_lem (Buffer.reserve heap b (b.region.iov_len + d.iov_len)) pos
          (Buffer.copy_in heap d pos) (DataLaws.contents d) v' (copy_in-Places d pos vd)
          (omega (arith, same_size)) (omega (arith, same_size, count)) in
      (
        b',
        ap
              (λ n.
                Buffer.splice heap (Buffer.reserve heap b n) pos d.iov_len
                  (Buffer.copy_in heap d pos))
              total
            ∙ subst
                (λ n.
                  Buffer.splice heap (Buffer.reserve heap b (b.region.iov_len + d.iov_len)) pos n
                    (Buffer.copy_in heap d pos)
                  ≡ some b')
                count e,
        v'',
        c ∙ ap (λ t. take pos t ++ (DataLaws.contents d ++ drop pos t)) same,
      )

  drop-contents : (b : Buffer) (n : ℕ) → length (contents b) ≤ n → drop n (contents b) ≡ []
  drop-contents b n h =
      get_elem?_ext (drop n (contents b)) []
        (λ i. ground (arith, get_elem?-drop n (contents b) i, get_elem?-past (contents b) (n + i)))

  fill_loop-Places :
      (d : Data) (count pos : ℕ)
      → DataLaws.IsValid d
      → Places (Buffer.fill_loop heap d count pos) pos (repeated count (DataLaws.contents d))
  unfolding Buffer.fill_loop
  fill_loop-Places d zero pos v m h small = (m, refl, refl, λ j. ground arith)
  fill_loop-Places d (suc count) pos v m h small =
      let bs = DataLaws.contents d in
      let total : length (repeated (suc count) bs) ≡ length bs + length (repeated count bs) =
        length-append bs (repeated count bs) in
      let n : length bs ≡ d.iov_len = DataLaws.length-contents d v in
      let (m1, e1, len1, at1) = copy_in-Places d pos v m (omega (arith, total, h)) small in
      let (m2, e2, len2, at2) =
        fill_loop-Places d count (pos + d.iov_len) v m1 (omega (arith, total, h, n, len1))
          (omega (arith, len1, small)) in
      let next : add64 pos d.iov_len ≡ pos + d.iov_len = omega (arith, total, h, n, small) in
      (
        m2,
        ap (λ o. o >>= λ m'. Buffer.fill_loop heap d count (add64 pos d.iov_len) m') e1
            ∙ ap (λ k. Buffer.fill_loop heap d count k m1) next
            ∙ e2,
        len2 ∙ len1,
        λ j.
            ground
              (arith, at2 j, at1 j, total, n, get_elem?-append bs (repeated count bs) (j - pos)),
      )

  -- `buffer_insert_fill` inserts the slice `count` times in a row.
  pub insert_fill_lem :
      (b : Buffer) (pos count : ℕ) (d : Data)
      → IsValid b
      → DataLaws.IsValid d
      → pos ≤ b.region.iov_len
      → b.region.iov_len + count * d.iov_len ≤ 2 ^ 63
      → (b' : Buffer) × (Buffer.insert_fill heap b pos count d ≡ some b')
        × IsValid b'
        × (contents b'
            ≡ take pos (contents b)
              ++ (repeated count (DataLaws.contents d) ++ drop pos (contents b)))
  unfolding Buffer.insert_fill
  insert_fill_lem b pos count d v vd inside fits =
      let n : mul64 count d.iov_len ≡ count * d.iov_len = omega arith in
      let (v', room, same_size, same) =
        reserve_lem heap b (b.region.iov_len + count * d.iov_len) v fits in
      let size : length (repeated count (DataLaws.contents d)) ≡ count * d.iov_len =
        length-repeated count (DataLaws.contents d)
        ∙ ap (λ (t : ℕ). count * t) (DataLaws.length-contents d vd) in
      let (b', e, v'', c) =
        splice_lem (Buffer.reserve heap b (b.region.iov_len + count * d.iov_len)) pos
          (Buffer.fill_loop heap d count pos) (repeated count (DataLaws.contents d)) v'
          (fill_loop-Places d count pos vd) (omega (arith, same_size))
          (omega (arith, same_size, size)) in
      (
        b',
        ap₂
              (λ n k.
                Buffer.splice heap (Buffer.reserve heap b n) pos k
                  (Buffer.fill_loop heap d count pos))
              (omega (arith, n)) n
            ∙ subst
                (λ n.
                  Buffer.splice heap (Buffer.reserve heap b (b.region.iov_len + count * d.iov_len))
                    pos n (Buffer.fill_loop heap d count pos)
                  ≡ some b')
                size e,
        v'',
        c ∙ ap (λ t. take pos t ++ (repeated count (DataLaws.contents d) ++ drop pos t)) same,
      )

  -- `buffer_append` adds the slice's bytes at the end.
  pub append_lem :
      (b : Buffer) (d : Data)
      → IsValid b
      → DataLaws.IsValid d
      → b.region.iov_len + d.iov_len ≤ 2 ^ 63
      → (b' : Buffer) × (Buffer.append heap b d ≡ some b')
        × IsValid b'
        × (contents b' ≡ contents b ++ DataLaws.contents d)
  unfolding Buffer.append
  append_lem b d v vd fits =
      let (b', e, v', c) = insert_lem b b.region.iov_len d v vd (omega arith) fits in
      (
        b',
        e,
        v',
        c
            ∙ ap₂ (λ xs ys. xs ++ (DataLaws.contents d ++ ys))
                (take-length b.region.iov_len (contents b) (omega (arith, length-contents b v)))
                (drop-contents b b.region.iov_len (omega (arith, length-contents b v)))
            ∙ ap (λ ys. contents b ++ ys) (append-nil (DataLaws.contents d)),
      )

  -- `buffer_prepend` puts the slice's bytes in front.
  pub prepend_lem :
      (b : Buffer) (d : Data)
      → IsValid b
      → DataLaws.IsValid d
      → b.region.iov_len + d.iov_len ≤ 2 ^ 63
      → (b' : Buffer) × (Buffer.prepend heap b d ≡ some b')
        × IsValid b'
        × (contents b' ≡ DataLaws.contents d ++ contents b)
  unfolding Buffer.prepend
  prepend_lem b d v vd fits = insert_lem b 0 d v vd (omega arith) fits
