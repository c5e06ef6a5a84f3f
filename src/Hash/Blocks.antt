-- ===== src/Hash/Blocks.antt =====
-- The loop of `cfarmhash` over blocks of 64 bytes, and `hash_data` as a whole.
use libreactorng.Prelude.{
  ℕ, zero, suc, ◌+◌, ◌-◌, ◌*◌, ◌/◌, ◌^◌, ◌≤◌, ◌<◌, ◌≡◌, refl, some, List, length, arith, lt_or_ge,
  inl, inr,
}
use libreactorng.Prelude.Words.{sub64}
use libreactorng.Prelude.Memory.{bytes}
use libreactorng.Hash
use libreactorng.Hash.{Pair64, Seeds}
use libreactorng.Data
use libreactorng.Data.{Data}
use libreactorng.Data.Laws.{IsValid}
use libreactorng.Hash.Bounds.{
  Returns, ReturnsWord, chain, chain_word, hash_len_16_lem, then64, hash_len_17_to_32_lem,
  hash_len_33_to_64_lem, hash_len_0_to_16_lem, mix_lem,
}

rounds_lem :
    (fuel : ℕ) (s : List ℕ) (p end left : ℕ) (t : Seeds)
    → end ≡ p + 64 * suc left
    → end ≤ length s
    → left < fuel
    → Returns (Hash.rounds fuel s p end t)
unfolding Hash.rounds
rounds_lem zero s p end left t h inside enough = absurd (omega arith)
rounds_lem (suc fuel) s p end zero t h inside enough =
    chain _ _ (mix_lem s p Hash.k1 1 t (omega arith)) (λ t2. (t2, ground arith))
rounds_lem (suc fuel) s p end (suc left) t h inside enough =
    chain _ _ (mix_lem s p Hash.k1 1 t (omega arith)) (λ t2.
      let (u, e) = rounds_lem fuel s (p + 64) end left t2 (omega arith) inside (omega arith) in
      (u, ground (arith, e)))

finish_lem :
    (s : List ℕ) (len last64 : ℕ) (t : Seeds)
    → last64 + 64 ≤ length s
    → ReturnsWord (Hash.finish s len last64 t)
unfolding Hash.finish
finish_lem s len last64 t h =
    chain_word _ _ (mix_lem s last64 _ 9 _ h) (λ u. (_, refl, hash_len_16_lem _ _ _))

hash_blocks_lem :
    (s : List ℕ) (len : ℕ)
    → 65 ≤ len
    → len ≤ length s
    → len < 2 ^ 64
    → ReturnsWord (Hash.hash_blocks s len)
unfolding Hash.hash_blocks
hash_blocks_lem s len more inside fits =
    let end = sub64 len 1 / 64 * 64 in
    let blocks : end ≡ 0 + 64 * suc (sub64 len 1 / 64 - 1) = omega (arith, more, fits) in
    then64 s 0 _ (omega (arith, more, inside)) (λ first.
      chain_word _ _
        (rounds_lem (length s) s 0 end (sub64 len 1 / 64 - 1) (Hash.seeds first) blocks
          (omega (arith, more, inside, fits)) (omega (arith, more, inside, fits)))
        (λ t. finish_lem s len _ t (omega (arith, more, inside, fits))))

-- For every valid slice `hash_data` returns a 64-bit integer: it reads no byte outside the slice's
-- object, and its loop ends.
pub hash_data_lem : (d : Data) → IsValid d → (h : ℕ) × (Hash.hash_data d ≡ some h) × (h < 2 ^ 64)
unfolding Hash.hash_data Hash.cfarmhash Data.size
hash_data_lem d v =
    let s = bytes d.iov_base in
    let len = d.iov_len in
    elim (lt_or_ge 16 len) [
      | inr small ↦
          (let (h, e, word) = hash_len_0_to_16_lem s len v.inside v.fits in
            (h, ground (arith, e, small), word))
      | inl more ↦ elim (lt_or_ge 32 len) [
        | inr small ↦
            (let (h, e, word) = hash_len_17_to_32_lem s len v.inside v.fits more in
              (h, ground (arith, e, small, more), word))
        | inl more32 ↦ elim (lt_or_ge 64 len) [
          | inr small ↦
              (let (h, e, word) = hash_len_33_to_64_lem s len v.inside v.fits more32 in
                (h, ground (arith, e, small, more, more32), word))
          | inl more64 ↦
              (let (h, e, word) = hash_blocks_lem s len more64 v.inside v.fits in
                (h, ground (arith, e, more, more32, more64), word))
        ]
      ]
    ]
