-- ===== src/Http/Chunks/Dechunked.antt =====
-- The two loops of `http_dechunk` against the joined data of the chunks.
use libreactorng.Prelude.{
  ℕ, zero, suc, ◌+◌, ◌^◌, ◌≤◌, ◌<◌, ◌≡◌, refl, sym, ◌≢◌, ap, ◌∙◌, some, List, [], ◌==◌, ◌>>=◌,
  >>=-eq-some, length, take, drop, arith, Bool-cases, inl, inr, length-drop, get_elem?,
  get_elem?_ext, get_elem?-drop,
}
use libreactorng.Prelude.Words.{add64}
use libreactorng.Http.Chunks
use libreactorng.Http.Chunks.{Parsed, bad, partial, whole}
use libreactorng.Http.Chunks.Joined.{IsChunk, chunk_lem, joined, in_front}

pub drop-drop : (n m : ℕ) (s : List ℕ) → drop n (drop m s) ≡ drop (m + n) s
drop-drop n m s = get_elem?_ext _ _ (λ i.
    let sums : m + (n + i) ≡ m + n + i = omega arith in
    get_elem?-drop n (drop m s) i
    ∙ get_elem?-drop m s (n + i)
    ∙ ap (get_elem? s) sums
    ∙ sym (get_elem?-drop (m + n) s i))

-- The first chunk of a joined text, and the rest.
pub joined_inv :
    (fuel : ℕ) (t : List ℕ) (n at size : ℕ) (j : Parsed (List ℕ))
    → joined (suc fuel) t ≡ some j
    → Chunks.chunk t ≡ some (whole n (at, size))
    → size ≢ 0
    → (j' : Parsed (List ℕ)) × (joined fuel (drop n t) ≡ some j')
      × (j ≡ in_front n (take size (drop at t)) j')
unfolding joined
joined_inv fuel t n at size j h e some_data =
    let opened : (joined fuel (drop n t) >>= λ x. some (in_front n (take size (drop at t)) x))
        ≡ some j =
      ground (arith, h, e, some_data) in
    let (j', e', same) = >>=-eq-some (joined fuel (drop n t)) _ opened in
    (j', e', ground (arith, same))

pub joined_last :
    (fuel : ℕ) (t : List ℕ) (n at : ℕ) (j : Parsed (List ℕ))
    → joined (suc fuel) t ≡ some j
    → Chunks.chunk t ≡ some (whole n (at, 0))
    → j ≡ whole n []
unfolding joined
joined_last fuel t n at j h e = ground (arith, h, e)

-- How the first loop ends.
abbrev pub ended : ℕ → Parsed (List ℕ) → Parsed (Unit {0})
ended offset bad = bad
ended offset partial = partial
ended offset (whole k bytes) = whole (offset + k) tt

ended_front :
    (offset n : ℕ) (bytes : List ℕ) (j : Parsed (List ℕ))
    → ended (offset + n) j ≡ ended offset (in_front n bytes j)
ended_front offset n bytes bad = refl
ended_front offset n bytes partial = refl
ended_front offset n bytes (whole k more) =
    let sums : offset + n + k ≡ offset + (n + k) = omega arith in ap (λ x. whole x tt) sums

module _ (fuel : ℕ) (s : List ℕ) (offset : ℕ) (j : Parsed (List ℕ))
    (h : joined (suc fuel) (drop offset s) ≡ some j) (small : length s < 2 ^ 63)
    (inside : offset ≤ length s)
    (later : (n : ℕ) (j' : Parsed (List ℕ))
      → joined fuel (drop (offset + n) s) ≡ some j'
      → offset + n ≤ length s
      → Chunks.scan fuel s (offset + n) ≡ some (ended (offset + n) j')) where
  scan_step :
      (r : Parsed (ℕ × ℕ))
      → Chunks.chunk (drop offset s) ≡ some r
      → IsChunk (drop offset s) r
      → Chunks.scan (suc fuel) s offset ≡ some (ended offset j)
  unfolding Chunks.scan joined
  scan_step bad e c = ground (arith, h, e)
  scan_step partial e c = ground (arith, h, e)
  scan_step (whole n (at, size)) e c =
      let next : add64 offset n ≡ offset + n =
        omega (arith, c, small, inside, length-drop offset s) in
      elim (Bool-cases (size == 0)) [
        | inl none_left ↦ ground (arith, h, e, none_left, next)
        | inr some_data ↦
            let (j', e', same) =
              joined_inv fuel (drop offset s) n at size j h e (ground (arith, some_data)) in
            let rest =
              later n j' (ap (joined fuel) (sym (drop-drop n offset s)) ∙ e')
                (omega (arith, c, inside, length-drop offset s)) in
            let front = ended_front offset n (take size (drop at (drop offset s))) j' in
            ground (arith, e, some_data, next, rest, front, same)
      ]

pub scan_lem :
    (fuel : ℕ) (s : List ℕ) (offset : ℕ) (j : Parsed (List ℕ))
    → joined fuel (drop offset s) ≡ some j
    → offset ≤ length s
    → length s < 2 ^ 63
    → Chunks.scan fuel s offset ≡ some (ended offset j)
unfolding joined
scan_lem zero s offset j h inside small = ground (arith, h)
scan_lem (suc fuel) s offset j h inside small =
    let (r, e, c) = chunk_lem (drop offset s) (omega (arith, small, length-drop offset s)) in
    scan_step fuel s offset j h small inside
      (λ n j' h' inside'. scan_lem fuel s (offset + n) j' h' inside' small) r e c
