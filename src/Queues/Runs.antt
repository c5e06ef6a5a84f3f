-- ===== src/Queues/Runs.antt =====
-- The runs of a producer of src/reactor/queue.c.
use libreactorng.Prelude.{
  ℕ, ◌+◌, ◌%◌, ◌^◌, ◌≤◌, ◌<◌, ◌≡◌, refl, sym, ap, ◌∙◌, Bool-cases, inl, inr, none, some, List, [],
  ◌++◌, ◌==◌, length, take, arith, append_assoc, append-nil, subst,
}
use libreactorng.Queues
use libreactorng.Queues.{Producer, interrupted, wrote}
use libreactorng.Queues.Order.{IsProducer, waiting, push_lem, wrote_lem, interrupted_lem}

-- The runs of a producer: what was pushed, what was written, and the state.
pub data Run (element_size : ℕ) : List ℕ → List ℕ → Producer → Type 0 where
  opened : Run element_size [] [] (Queues.construct element_size)
  pushed :
      {ins outs : List ℕ} {p : Producer} (e : List ℕ)
      → Run element_size ins outs p
      → length p.output + length p.output_queued + length e < 2 ^ 63
      → Run element_size (ins ++ e) outs (Queues.push p e)
  written :
      {ins outs : List ℕ} {p q : Producer} (slice : List ℕ) (n : ℕ)
      → Run element_size ins outs p
      → p.write ≡ some slice
      → 0 < n
      → n ≤ length slice
      → Queues.on_write p (wrote n) ≡ some q
      → Run element_size ins (outs ++ take n slice) q
  restarted :
      {ins outs : List ℕ} {p q : Producer} (slice : List ℕ)
      → Run element_size ins outs p
      → p.write ≡ some slice
      → Queues.on_write p interrupted ≡ some q
      → Run element_size ins outs q

whole_lem : (p q : Producer) (n : ℕ) → Queues.on_write p (wrote n) ≡ some q → n % p.element_size ≡ 0
unfolding Queues.on_write
whole_lem p q n e = elim (Bool-cases (n % p.element_size == 0)) [
  | inl whole ↦ ground (arith, whole)
  | inr part ↦ absurd (ground (arith, part, e))
]

run_lem :
    (element_size : ℕ) (ins outs : List ℕ) (p : Producer)
    → 0 < element_size
    → element_size < 2 ^ 32
    → Run element_size ins outs p
    → IsProducer p × (ins ≡ outs ++ waiting p)
unfolding Queues.construct
run_lem size _ _ _ sized small opened = (
  record {
    inside = omega arith;
    sized = sized;
    small = small;
    fits = omega arith;
    idle = λ h. refl;
    first = λ slice h. absurd (ground (arith, h));
  },
  refl,
)
run_lem size _ _ _ sized small (pushed {ins = ins} {outs = outs} {p = p} e run room) =
    let (v, same) = run_lem size ins outs p sized small run in
    let (v', more) = push_lem p e v room in
    (v', ap (λ w. w ++ e) same ∙ append_assoc outs (waiting p) e ∙ ap (λ w. outs ++ w) (sym more))
run_lem size _ _ _ sized small
      (written {ins = ins} {outs = outs} {p = p} {q = q} slice n run call some_bytes most e) =
    let (v, same) = run_lem size ins outs p sized small run in
    let (r, e', v', split) = wrote_lem p slice n v call some_bytes most (whole_lem p q n e) in
    let is : r ≡ q = ground (arith, e, e') in
    subst (λ r. IsProducer r × (ins ≡ (outs ++ take n slice) ++ waiting r)) is
      (v', same ∙ ap (λ w. outs ++ w) split ∙ sym (append_assoc outs (take n slice) (waiting r)))
run_lem size _ _ _ sized small
      (restarted {ins = ins} {outs = outs} {p = p} {q = q} slice run call e) =
    let (v, same) = run_lem size ins outs p sized small run in
    let (r, e', v', kept) = interrupted_lem p slice v call in
    let is : r ≡ q = ground (arith, e, e') in
    subst (λ r. IsProducer r × (ins ≡ outs ++ waiting r)) is
      (v', same ∙ ap (λ w. outs ++ w) (sym kept))

-- In every run of a producer, whatever the pipe takes of a call and however often a call is
-- interrupted, what was pushed is what was written, followed by what waits; and when no call is under
-- way, everything that was pushed is written. Elements have between 1 and 2 ^ 32 - 1 bytes, and fewer
-- than 2 ^ 63 bytes wait.
pub order_lem :
    (element_size : ℕ) (ins outs : List ℕ) (p : Producer)
    → 0 < element_size
    → element_size < 2 ^ 32
    → Run element_size ins outs p
    → IsProducer p × (ins ≡ outs ++ waiting p) × (p.write ≡ none → ins ≡ outs)
order_lem element_size ins outs p sized small run =
    let (v, e) = run_lem element_size ins outs p sized small run in
    (v, e, λ h. e ∙ ap (λ w. outs ++ w) (v.idle h) ∙ append-nil outs)
