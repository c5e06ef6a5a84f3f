-- ===== src/Buffer/Files.antt =====
-- src/reactor/buffer.c's `buffer_read`, `buffer_load` and `buffer_save`: the loop over 4096-byte
-- chunks ends, and reads the whole file.
use libreactorng.Prelude.{
  ℕ, zero, suc, ◌+◌, ◌-◌, ◌*◌, ◌^◌, ◌≤◌, ◌<◌, ◌≡◌, ◌∙◌, ap, sym, subst, some, List, ◌++◌, ◌==◌,
  length, take, drop, arith, length-take, length-drop, length-append, get_elem?_ext, get_elem?-take,
  get_elem?-append, get_elem?-past, Bool-cases, inl, inr, append_assoc, take-append-drop,
  take-length, ==_iff,
}
use libreactorng.Prelude.Words.{sub64, add64}
use libreactorng.Prelude.Memory.{bytes, write, Allocator, write_lem}
use libreactorng.Data
use libreactorng.Buffer
use libreactorng.Buffer.{Buffer}
use libreactorng.Buffer.Valid.{IsValid, contents, length-contents, resize_lem, resize_within}
use libreactorng.Buffer.Insert.{bytes-rewritten}

module _ (heap : Allocator) where
  -- One round of the loop appends the chunk.
  abbrev grown : Buffer → Buffer
  grown b = Buffer.resize heap b (add64 b.region.iov_len 4096)

  abbrev taken : Buffer → List ℕ → ℕ → Buffer
  taken b m n =
      Buffer.resize heap (Buffer.over (grown b) m) (add64 (sub64 (grown b).region.iov_len 4096) n)

  round :
      (b : Buffer) (chunk : List ℕ)
      → IsValid b
      → length chunk ≤ 4096
      → b.region.iov_len + 4096 ≤ 2 ^ 63
      → (m : List ℕ) × (write (bytes (grown b).region.iov_base) b.region.iov_len chunk ≡ some m)
        × IsValid (taken b m (length chunk))
        × (contents (taken b m (length chunk)) ≡ contents b ++ chunk)
  unfolding Data.define
  round b chunk v short fits =
      let total : add64 b.region.iov_len 4096 ≡ b.region.iov_len + 4096 = omega arith in
      let (v', size, same) = resize_lem heap b (add64 b.region.iov_len 4096) v (omega arith) in
      let (m, e, len, at) =
        write_lem (bytes (grown b).region.iov_base) b.region.iov_len chunk
          (omega (arith, v'.owns, v'.inside, size)) in
      let held : bytes (Buffer.rewritten (grown b).region.iov_base m) ≡ m =
        bytes-rewritten (grown b).region.iov_base m len in
      let count : add64 (sub64 (grown b).region.iov_len 4096) (length chunk)
          ≡ b.region.iov_len + length chunk =
        omega (arith, size) in
      let within =
        resize_within heap (Buffer.over (grown b) m) (b.region.iov_len + length chunk)
          (omega (arith, v'.inside, size)) in
      let after = record (grown b) {
        region =
            Data.define (Buffer.rewritten (grown b).region.iov_base m)
              (b.region.iov_len + length chunk);
      } in
      let is : taken b m (length chunk) ≡ after =
        ap (Buffer.resize heap (Buffer.over (grown b) m)) count ∙ within in
      let v'' : IsValid after = record {
        owns = ap (λ (l : List ℕ). length l) held ∙ (len ∙ v'.owns);
        inside = omega (arith, v'.inside, size);
        small = v'.small;
      } in
      (
        m,
        e,
        subst IsValid (sym is) v'',
        ap contents is
            ∙ (ap (take (b.region.iov_len + length chunk)) held
                ∙ get_elem?_ext (take (b.region.iov_len + length chunk) m) (contents b ++ chunk)
                    (λ i. ground (
                      arith,
                      get_elem?-take (b.region.iov_len + length chunk) m i,
                      at i,
                      get_elem?-append (contents b) chunk i,
                      get_elem?-past chunk (i - b.region.iov_len),
                      length-contents b v,
                      same i,
                      get_elem?-take (grown b).region.iov_len (bytes (grown b).region.iov_base) i,
                      size,
                    ))),
      )

  -- With a round for each 4096 bytes of the file and one more, `buffer_read` ends, and appends the
  -- whole file.
  pub read_file_lem :
      (fuel : ℕ) (b : Buffer) (file : List ℕ)
      → IsValid b
      → length file < fuel * 4096
      → b.region.iov_len + length file + 4096 ≤ 2 ^ 63
      → (b' : Buffer) × (Buffer.read_file heap fuel b file ≡ some b')
        × IsValid b'
        × (contents b' ≡ contents b ++ file)
  unfolding Buffer.read_file Buffer.allocate
  read_file_lem zero b file v enough fits = absurd (omega arith)
  read_file_lem (suc fuel) b file v enough fits =
      let (m, e, v', c) =
        round b (take 4096 file) v (omega (arith, length-take 4096 file)) (omega arith) in
      let b1 = taken b m (length (take 4096 file)) in
      let size : b1.region.iov_len ≡ b.region.iov_len + length (take 4096 file) =
        sym (length-contents b1 v')
        ∙ (ap (λ (l : List ℕ). length l) c
            ∙ (length-append (contents b) (take 4096 file) ∙ omega (arith, length-contents b v))) in
      elim (Bool-cases (length (take 4096 file) == 4096)) [
        | inr last ↦ (
          b1,
          rw (e, last),
          v',
          c
              ∙ ap (λ t. contents b ++ t)
                  (take-length 4096 file (ground (arith, last, length-take 4096 file))),
        )
        | inl more ↦
            let full : length (take 4096 file) ≡ 4096 =
              (==_iff (length (take 4096 file)) 4096).0 more in
            let full' : 4096 ≤ length file = omega (arith, full, length-take 4096 file) in
            let (b', e', v'', c') =
              read_file_lem fuel b1 (drop 4096 file) v' (omega (arith, full, length-drop 4096 file))
                (omega (arith, full, length-drop 4096 file, size, length-take 4096 file)) in
            (
              b',
              rw (e, more) e',
              v'',
              c'
                  ∙ (ap (λ t. t ++ drop 4096 file) c
                      ∙ (append_assoc (contents b) (take 4096 file) (drop 4096 file)
                          ∙ ap (λ t. contents b ++ t) (take-append-drop 4096 file))),
            )
      ]
