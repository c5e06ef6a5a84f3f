-- ===== src/Buffer/Erase.antt =====
-- src/reactor/buffer.c's `buffer_erase` as an operation on the list of bytes.
use libreactorng.Prelude.{
  ℕ, ◌+◌, ◌-◌, ◌≤◌, ◌≡◌, ◌∙◌, ap, ap₂, some, List, ◌++◌, ◌>>=◌, length, take, drop, arith,
  length-take, get_elem?_ext, get_elem?-take, get_elem?-drop, get_elem?-append,
}
use libreactorng.Prelude.Words.{sub64, add64}
use libreactorng.Prelude.Memory.{bytes, move, Allocator, move_lem}
use libreactorng.Data
use libreactorng.Data.{Data}
use libreactorng.Buffer
use libreactorng.Buffer.{Buffer}
use libreactorng.Buffer.Valid.{IsValid, contents, length-contents, resize_within}
use libreactorng.Buffer.Insert.{bytes-rewritten}

module _ (heap : Allocator) where
  -- Erasing bytes inside a buffer returns a valid buffer with those bytes taken out.
  pub erase_lem :
      (b : Buffer) (pos n : ℕ)
      → IsValid b
      → pos + n ≤ b.region.iov_len
      → (b' : Buffer) × (Buffer.erase heap b pos n ≡ some b')
        × IsValid b'
        × (contents b' ≡ take pos (contents b) ++ drop (pos + n) (contents b))
  unfolding Buffer.erase Data.define
  erase_lem b pos n v h =
      let from : add64 pos n ≡ pos + n = omega (arith, v.inside, v.small) in
      let count : sub64 (sub64 b.region.iov_len pos) n ≡ b.region.iov_len - pos - n =
        omega (arith, v.inside, v.small) in
      let left : sub64 b.region.iov_len n ≡ b.region.iov_len - n =
        omega (arith, v.inside, v.small) in
      let (m, e, len, at) =
        move_lem (bytes b.region.iov_base) pos (pos + n) (b.region.iov_len - pos - n)
          (omega (arith, v.owns, v.inside)) (omega (arith, v.owns, v.inside)) in
      let held : bytes (Buffer.rewritten b.region.iov_base m) ≡ m =
        bytes-rewritten b.region.iov_base m len in
      let e1 : move (bytes b.region.iov_base) pos (add64 pos n)
            (sub64 (sub64 b.region.iov_len pos) n)
          ≡ some m =
        ap₂ (λ x y. move (bytes b.region.iov_base) pos x y) from count ∙ e in
      let e2 : Buffer.resize heap (Buffer.over b m) (sub64 b.region.iov_len n) ≡ record b {
        region = Data.define (Buffer.rewritten b.region.iov_base m) (b.region.iov_len - n);
      } =
        ap (Buffer.resize heap (Buffer.over b m)) left
        ∙ resize_within heap (Buffer.over b m) (b.region.iov_len - n) (omega (arith, v.inside)) in
      (
        record b {
          region = Data.define (Buffer.rewritten b.region.iov_base m) (b.region.iov_len - n);
        },
        ap (λ o. o >>= λ x. some (Buffer.resize heap (Buffer.over b x) (sub64 b.region.iov_len n)))
              e1
            ∙ ap some e2,
        record {
          owns = ap (λ (l : List ℕ). length l) held ∙ (len ∙ v.owns);
          inside = omega (arith, v.inside);
          small = v.small;
        },
        ap (take (b.region.iov_len - n)) held
            ∙ get_elem?_ext (take (b.region.iov_len - n) m)
                (take pos (contents b) ++ drop (pos + n) (contents b))
                (λ i. ground (
                  arith,
                  at i,
                  get_elem?-take (b.region.iov_len - n) m i,
                  get_elem?-append (take pos (contents b)) (drop (pos + n) (contents b)) i,
                  get_elem?-take pos (contents b) i,
                  get_elem?-drop (pos + n) (contents b) (i - pos),
                  get_elem?-take b.region.iov_len (bytes b.region.iov_base) i,
                  get_elem?-take b.region.iov_len (bytes b.region.iov_base) (pos + n + (i - pos)),
                  length-take pos (contents b),
                  length-contents b v,
                )),
      )
