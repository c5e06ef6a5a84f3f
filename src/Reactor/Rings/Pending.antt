-- ===== src/Reactor/Rings/Pending.antt =====
-- The entries of the ring that the kernel has not taken yet, as a sequence.
use libreactorng.Prelude.{
  ℕ, zero, suc, ◌+◌, ◌%◌, ◌^◌, ◌≤◌, ◌<◌, ◌≡◌, ◌≢◌, refl, sym, ap, ap₂, ◌∙◌, subst, Option, some,
  List, [], ◌∷◌, ◌++◌, ◌==◌, if◌then◌else◌, ◌>>=◌, length, set, get_elem?, bit_and, arith,
  Bool-cases, inl, inr, lt_or_ge, length-set, get_elem?-set, get_elem?-set_other,
}
use libreactorng.Prelude.Bits.{bit_and-mask}
use libreactorng.Reactor.Rings
use libreactorng.Reactor.Rings.{Ring, Sqe, Kernel, add32, sub32}

-- A ring of REACTOR_RING_SIZE entries. At most that many are pending, and the array sends a place of
-- those to itself.
pub record IsRing (r : Ring) : Type 0 where
  pub size : r.size ≡ 4096
  pub mask : r.sq_mask ≡ 4095
  pub entries : length r.sqe ≡ 4096
  pub array : length r.sq_array ≡ 4096
  pub head : r.sq_head < 2 ^ 32
  pub tail : r.sq_tail < 2 ^ 32
  pub few : sub32 r.sq_tail r.sq_head ≤ 4096
  pub direct :
      (k : ℕ)
      → k < sub32 r.sq_tail r.sq_head
      → get_elem? r.sq_array (add32 r.sq_head k % 4096) ≡ some (add32 r.sq_head k % 4096)

-- What the kernel reads for the entry at `i`.
unfoldable pub entry : Ring → ℕ → Option Sqe
entry r i = get_elem? r.sq_array (bit_and i r.sq_mask) >>= λ j. get_elem? r.sqe j

unfoldable pub entries : Ring → (n i : ℕ) → List (Option Sqe)
entries r zero i = []
entries r (suc n) i = entry r i ∷ entries r n (add32 i 1)

-- The entries between head and tail.
unfoldable pub pending : Ring → List (Option Sqe)
pending r = entries r (sub32 r.sq_tail r.sq_head) r.sq_head

-- What the kernel does with the entries: it takes all it was told of, and leaves the memory as it is.
pub record IsKernel (kernel : Kernel) : Type 0 where
  pub taken :
      (r : Ring) (m : ℕ)
      → IsRing r
      → (kernel r (sub32 r.sq_tail r.sq_head) m).1 ≡ sub32 r.sq_tail r.sq_head
  pub behind :
      (r : Ring) (m : ℕ)
      → IsRing r
      → IsRing (kernel r (sub32 r.sq_tail r.sq_head) m).0
        × ((kernel r (sub32 r.sq_tail r.sq_head) m).0.sq_head ≡ r.sq_tail)
        × ((kernel r (sub32 r.sq_tail r.sq_head) m).0.sq_tail ≡ r.sq_tail)

mask_lem : (r : Ring) (i : ℕ) → IsRing r → bit_and i r.sq_mask ≡ i % 4096
mask_lem r i v = ap (bit_and i) v.mask ∙ bit_and-mask 12 i

-- The ring behind a call of `queue` that does not flush.
abbrev queued : Ring → Sqe → Ring
queued r e = record r {
  sqe = set r.sqe (r.sq_tail % 4096) e;
  sq_array = set r.sq_array (r.sq_tail % 4096) (r.sq_tail % 4096);
  sq_tail = add32 r.sq_tail 1;
}

-- The index of a pending entry, and that of the tail, have different places.
apart :
    (r : Ring) (k : ℕ)
    → IsRing r
    → k < sub32 r.sq_tail r.sq_head
    → sub32 r.sq_tail r.sq_head < 4096
    → r.sq_tail % 4096 ≢ add32 r.sq_head k % 4096
apart r k v less room e = omega (arith, v.head, v.tail, less, room, e)

kept_entry :
    (r : Ring) (e : Sqe) (k : ℕ)
    → IsRing r
    → k < sub32 r.sq_tail r.sq_head
    → sub32 r.sq_tail r.sq_head < 4096
    → entry (queued r e) (add32 r.sq_head k) ≡ entry r (add32 r.sq_head k)
unfolding entry
kept_entry r e k v less room =
    let other = apart r k v less room in
    ground (
      arith,
      mask_lem r (add32 r.sq_head k) v,
      v.direct k less,
      get_elem?-set_other r.sq_array (r.sq_tail % 4096) (add32 r.sq_head k % 4096)
          (r.sq_tail % 4096) other,
      get_elem?-set_other r.sqe (r.sq_tail % 4096) (add32 r.sq_head k % 4096) e other,
    )

entry_last : (r : Ring) (e : Sqe) → IsRing r → entry (queued r e) r.sq_tail ≡ some e
unfolding entry
entry_last r e v = ground (
  arith,
  mask_lem r r.sq_tail v,
  get_elem?-set r.sq_array (r.sq_tail % 4096) (r.sq_tail % 4096) (omega (arith, v.array)),
  get_elem?-set r.sqe (r.sq_tail % 4096) e (omega (arith, v.entries)),
)

kept_entries :
    (r : Ring) (e : Sqe) (n k : ℕ)
    → IsRing r
    → k + n ≡ sub32 r.sq_tail r.sq_head
    → sub32 r.sq_tail r.sq_head < 4096
    → entries (queued r e) n (add32 r.sq_head k) ≡ entries r n (add32 r.sq_head k)
unfolding entries
kept_entries r e zero k v all room = refl
kept_entries r e (suc n) k v all room =
    let next : add32 (add32 r.sq_head k) 1 ≡ add32 r.sq_head (suc k) = omega arith in
    ap₂ (λ x xs. x ∷ xs) (kept_entry r e k v (omega (arith, all)) room)
      (ap (entries (queued r e) n) next
        ∙ kept_entries r e n (suc k) v (omega (arith, all)) room
        ∙ ap (entries r n) (sym next))

entries-suc :
    (r : Ring) (n i : ℕ)
    → i < 2 ^ 32
    → entries r (suc n) i ≡ entries r n i ++ (entry r (add32 i n) ∷ [])
unfolding entries
entries-suc r zero i h =
    let same : add32 i 0 ≡ i = omega (arith, h) in ap (λ j. entry r j ∷ []) (sym same)
entries-suc r (suc n) i h =
    let next : add32 (add32 i 1) n ≡ add32 i (suc n) = omega arith in
    ap (λ xs. entry r i ∷ xs)
      (entries-suc r n (add32 i 1) (omega arith)
        ∙ ap (λ j. entries r n (add32 i 1) ++ (entry r j ∷ [])) next)

pending-queued :
    (r : Ring) (e : Sqe)
    → IsRing r
    → sub32 r.sq_tail r.sq_head < 4096
    → pending (queued r e) ≡ pending r ++ (some e ∷ [])
unfolding pending
pending-queued r e v room =
    let n = sub32 r.sq_tail r.sq_head in
    let one_more : sub32 (add32 r.sq_tail 1) r.sq_head ≡ suc n =
      omega (arith, v.head, v.tail, room) in
    let start : add32 r.sq_head 0 ≡ r.sq_head = omega (arith, v.head) in
    let last : add32 r.sq_head n ≡ r.sq_tail = omega (arith, v.head, v.tail) in
    ap (λ k. entries (queued r e) k r.sq_head) one_more
    ∙ entries-suc (queued r e) n r.sq_head v.head
    ∙ ap₂ (λ xs x. xs ++ (x ∷ []))
        (ap (entries (queued r e) n) (sym start)
          ∙ kept_entries r e n 0 v (omega arith) room
          ∙ ap (entries r n) start)
        (ap (entry (queued r e)) last ∙ entry_last r e v)

queued-IsRing :
    (r : Ring) (e : Sqe) → IsRing r → sub32 r.sq_tail r.sq_head < 4096 → IsRing (queued r e)
queued-IsRing r e v room = record {
  size = v.size;
  mask = v.mask;
  entries = omega (arith, v.entries, length-set r.sqe (r.sq_tail % 4096) e);
  array = omega (arith, v.array, length-set r.sq_array (r.sq_tail % 4096) (r.sq_tail % 4096));
  head = v.head;
  tail = omega arith;
  few = omega (arith, v.head, v.tail, room);
  direct = λ k less. elim (lt_or_ge k (sub32 r.sq_tail r.sq_head)) [
    | inl old ↦
        get_elem?-set_other r.sq_array (r.sq_tail % 4096) (add32 r.sq_head k % 4096)
          (r.sq_tail % 4096) (apart r k v old room)
        ∙ v.direct k old
    | inr new ↦
        let same : r.sq_tail % 4096 ≡ add32 r.sq_head k % 4096 =
          omega (arith, v.head, v.tail, room, less, new) in
        subst (λ i. get_elem? (set r.sq_array (r.sq_tail % 4096) (r.sq_tail % 4096)) i ≡ some i)
          same
          (get_elem?-set r.sq_array (r.sq_tail % 4096) (r.sq_tail % 4096) (omega (arith, v.array)))
  ];
}

-- Queueing into a ring with room.
within_lem :
    (kernel : Kernel) (r : Ring) (e : Sqe)
    → IsRing r
    → (f : Ring) → Rings.flush kernel r ≡ some f
    → IsRing f
    → sub32 f.sq_tail f.sq_head < 4096
    → Rings.queue kernel r e ≡ some (queued f e)
unfolding Rings.queue Rings.sqe Rings.store
within_lem kernel r e v f flushed vf room =
    ground (arith, flushed, mask_lem f f.sq_tail vf, vf.array, vf.entries)

pub flush_lem :
    (kernel : Kernel) (r : Ring)
    → IsKernel kernel
    → IsRing r
    → (f : Ring) × (Rings.flush kernel r ≡ some f)
      × IsRing f
      × (sub32 f.sq_tail f.sq_head < 4096)
      × (pending f ≡ (if sub32 r.sq_tail r.sq_head == 4096 then [] else pending r))
unfolding Rings.flush pending entries
flush_lem kernel r k v = elim (Bool-cases (sub32 r.sq_tail r.sq_head == 4096)) [
  | inl full ↦
      let (vf, head, tail) = k.behind r 0 v in
      let f = (kernel r (sub32 r.sq_tail r.sq_head) 0).0 in
      let nothing : sub32 f.sq_tail f.sq_head ≡ 0 = omega (arith, head, tail, v.tail) in
      (
        f,
        ground (arith, v.size, full, k.taken r 0 v),
        vf,
        omega (arith, nothing),
        ap (λ n. entries f n f.sq_head) nothing ∙ ground (arith, full),
      )
  | inr other ↦
      (r, ground (arith, v.size, other), v, ground (arith, other, v.few), ground (arith, other))
]

-- An entry that is queued stands behind those that wait, none of which is overwritten; a full ring
-- gives all its entries to the kernel first.
pub queue_lem :
    (kernel : Kernel) (r : Ring) (e : Sqe)
    → IsKernel kernel
    → IsRing r
    → (r' : Ring) × (Rings.queue kernel r e ≡ some r')
      × IsRing r'
      × (pending r'
          ≡ (if sub32 r.sq_tail r.sq_head == 4096 then [] else pending r) ++ (some e ∷ []))
queue_lem kernel r e k v =
    let (f, flushed, vf, room, waits) = flush_lem kernel r k v in
    (
      queued f e,
      within_lem kernel r e v f flushed vf room,
      queued-IsRing f e vf room,
      pending-queued f e vf room ∙ ap (λ xs. xs ++ (some e ∷ [])) waits,
    )
