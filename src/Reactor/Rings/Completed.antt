-- ===== src/Reactor/Rings/Completed.antt =====
-- The entries of the ring that the kernel completed, as a sequence.
use libreactorng.Prelude.{
  ℕ, zero, suc, ◌^◌, ◌<◌, ◌≡◌, ◌≢◌, refl, ap, ◌∙◌, Option, none, some, List, [], ◌∷◌, ◌>>=◌,
  get_elem?, bit_and, arith,
}
use libreactorng.Reactor.Rings
use libreactorng.Reactor.Rings.{Ring, Cqe, add32, sub32}

unfoldable pub completions : Ring → (n i : ℕ) → Option (List Cqe)
completions r zero i = some []
completions r (suc n) i = get_elem? r.cqe (bit_and i r.cq_mask) >>= λ c.
    completions r n (add32 i 1) >>= λ cs. some (c ∷ cs)

-- `cs` are the entries between head and tail, in order.
pub record Completed (r : Ring) (cs : List Cqe) : Type 0 where
  pub head : r.cq_head < 2 ^ 32
  pub tail : r.cq_tail < 2 ^ 32
  pub read : completions r (sub32 r.cq_tail r.cq_head) r.cq_head ≡ some cs

abbrev pub taken : Ring → Ring
taken r = record r { cq_head = add32 r.cq_head 1 }

completions-taken : (r : Ring) (n i : ℕ) → completions (taken r) n i ≡ completions r n i
unfolding completions
completions-taken r zero i = refl
completions-taken r (suc n) i =
    ap (λ o. get_elem? r.cqe (bit_and i r.cq_mask) >>= λ c. o >>= λ cs. some (c ∷ cs))
      (completions-taken r n (add32 i 1))

none_left : (r : Ring) (n i : ℕ) → completions r n i ≡ some [] → n ≡ 0
unfolding completions
none_left r zero i h = refl
none_left r (suc n) i h = ground (arith, h)

first_left :
    (r : Ring) (n i : ℕ) (c : Cqe) (cs : List Cqe)
    → completions r n i ≡ some (c ∷ cs)
    → (m : ℕ) × (n ≡ suc m)
      × (get_elem? r.cqe (bit_and i r.cq_mask) ≡ some c)
      × (completions r m (add32 i 1) ≡ some cs)
unfolding completions
first_left r zero i c cs h = absurd (ground (arith, h))
first_left r (suc n) i c cs h = (n, refl, ground (arith, h), ground (arith, h))

pub cqe-none : (r : Ring) → Completed r [] → Rings.cqe r ≡ some (none, r)
unfolding Rings.cqe
cqe-none r v =
    let nothing = none_left r (sub32 r.cq_tail r.cq_head) r.cq_head v.read in
    let same : r.cq_head ≡ r.cq_tail = omega (arith, nothing, v.head, v.tail) in
    ground (arith, same)

pub cqe-some :
    (r : Ring) (c : Cqe) (cs : List Cqe)
    → Completed r (c ∷ cs)
    → (Rings.cqe r ≡ some (some c, taken r)) × Completed (taken r) cs
unfolding Rings.cqe
cqe-some r c cs v =
    let (m, e, got, rest) = first_left r (sub32 r.cq_tail r.cq_head) r.cq_head c cs v.read in
    let other : r.cq_head ≢ r.cq_tail = λ same. omega (arith, same, e, v.head) in
    let left : sub32 r.cq_tail (add32 r.cq_head 1) ≡ m = omega (arith, e, v.head, v.tail) in
    (
      ground (arith, other, got),
      record {
        head = omega arith;
        tail = v.tail;
        read =
            ap (λ n. completions (taken r) n (add32 r.cq_head 1)) left
            ∙ completions-taken r m (add32 r.cq_head 1)
            ∙ rest;
      },
    )
