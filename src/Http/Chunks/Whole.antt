-- ===== src/Http/Chunks/Whole.antt =====
-- `http_dechunk` against the joined data of the chunks.
use libreactorng.Prelude.{
  ℕ, suc, ◌+◌, ◌^◌, ◌<◌, ◌≡◌, refl, sym, ap, ap₂, ◌∙◌, some, List, [], length, take, drop, arith,
}
use libreactorng.Http.Chunks
use libreactorng.Http.Chunks.{Parsed, bad, partial, whole}
use libreactorng.Http.Chunks.Joined.{joined, joined_total}
use libreactorng.Http.Chunks.Dechunked.{scan_lem}
use libreactorng.Http.Chunks.Gathered.{Moved, Gathers, gather_lem}

-- What `http_dechunk` leaves and returns, against the joined data of the chunks.
abbrev pub IsDechunked : (s m : List ℕ) → Parsed ℕ → Parsed (List ℕ) → Type 0
IsDechunked s m r bad = r ≡ bad
IsDechunked s m r partial = r ≡ partial
IsDechunked s m r (whole k bytes) =
    (r ≡ whole k (length bytes))
    × (take (length bytes) m ≡ bytes)
    × (drop k m ≡ drop k s)
    × (length m ≡ length s)

pub dechunk_of :
    (s : List ℕ) (j : Parsed (List ℕ))
    → length s < 2 ^ 63
    → joined (suc (length s)) s ≡ some j
    → (m : List ℕ) × (r : Parsed ℕ) × (Chunks.dechunk s ≡ some (m, r)) × IsDechunked s m r j
unfolding Chunks.dechunk Gathers
dechunk_of s bad small e =
    let scanned = scan_lem (suc (length s)) s 0 bad e (omega arith) small in
    (s, bad, ground (arith, scanned), refl)
dechunk_of s partial small e =
    let scanned = scan_lem (suc (length s)) s 0 partial e (omega arith) small in
    (s, partial, ground (arith, scanned), refl)
dechunk_of s (whole k bytes) small e =
    let scanned = scan_lem (suc (length s)) s 0 (whole k bytes) e (omega arith) small in
    let start : Moved s s 0 0 [] = record {
      same = refl;
      rest = refl;
      front = refl;
      behind = omega arith;
    } in
    let (m, gathered, v) =
      gather_lem s small (suc (length s)) s 0 0 k [] bytes start e (omega arith) in
    let ends : 0 + k ≡ k = omega arith in
    let sizes : 0 + length bytes ≡ length bytes = omega arith in
    let done = gathered ∙ ap₂ (λ a b. some (m, a, b)) sizes ends in
    (
      m,
      whole k (length bytes),
      ground (arith, scanned, done),
      (
        refl,
        ap (λ x. take x m) (sym sizes) ∙ v.front,
        ap (λ x. drop x m) (sym ends) ∙ v.rest ∙ ap (λ x. drop x s) ends,
        v.same,
      ),
    )

-- For a slice of fewer than 2 ^ 63 bytes `http_dechunk` returns, and stays inside the slice. It
-- reports an error, or that input is missing, where the chunks joined one after the other do; else it
-- returns the bytes that the chunks take, their data joined is at the front of the slice, and what
-- follows the chunks is as it was.
pub dechunk_lem :
    (s : List ℕ)
    → length s < 2 ^ 63
    → (j : Parsed (List ℕ)) × (joined (suc (length s)) s ≡ some j)
      × (m : List ℕ) × (r : Parsed ℕ) × (Chunks.dechunk s ≡ some (m, r))
      × IsDechunked s m r j
dechunk_lem s small =
    let (j, e, w) = joined_total (suc (length s)) s (omega arith) small in
    let (m, r, done, is) = dechunk_of s j small e in (j, e, m, r, done, is)
