-- ===== src/Queues/Order.antt =====
-- What is pushed is written in order, and nothing waits without a call.
use libreactorng.Prelude.{
  ℕ, zero, suc, ◌+◌, ◌-◌, ◌%◌, ◌^◌, ◌≤◌, ◌<◌, ◌≡◌, ◌≢◌, refl, sym, ap, ap₂, ◌∙◌, Option, none, some,
  List, [], ◌∷◌, ◌++◌, ◌==◌, length, take, drop, min, arith, Bool-cases, inl, inr, length-append,
  length-take, length-drop, append_assoc, append-nil, take-append-drop,
}
use libreactorng.Prelude.Words.{mul64, add64}
use libreactorng.Queues
use libreactorng.Queues.{Producer, Result, interrupted, failed, wrote}

-- What was pushed and is not known to be written.
abbrev pub waiting : Producer → List ℕ
waiting p = drop p.output_offset p.output ++ p.output_queued

-- A call is under way for the bytes that wait first, or nothing waits.
pub record IsProducer (p : Producer) : Type 0 where
  pub inside : p.output_offset ≤ length p.output
  pub sized : 0 < p.element_size
  pub small : p.element_size < 2 ^ 32
  pub fits : length p.output + length p.output_queued < 2 ^ 63
  pub idle : p.write ≡ none → waiting p ≡ []
  pub first :
      (slice : List ℕ)
      → p.write ≡ some slice
      → (0 < length slice) × (slice ≡ take (length slice) (drop p.output_offset p.output))

-- The same without a call.
pub record IsStopped (p : Producer) : Type 0 where
  pub stopped : p.write ≡ none
  pub inside : p.output_offset ≤ length p.output
  pub sized : 0 < p.element_size
  pub small : p.element_size < 2 ^ 32
  pub fits : length p.output + length p.output_queued < 2 ^ 63

drop_all : {A : Type 0} (n : ℕ) (xs : List A) → length xs ≤ n → drop n xs ≡ []
drop_all zero [] h = refl
drop_all zero (x ∷ xs) h = absurd (omega (arith, h))
drop_all (suc n) [] h = refl
drop_all (suc n) (x ∷ xs) h = drop_all n xs (omega (arith, h))

no_length : {A : Type 0} (xs : List A) → length xs ≡ 0 → xs ≡ []
no_length [] h = refl
no_length (x ∷ xs) h = absurd (omega (arith, h))

take_twice : {A : Type 0} (n : ℕ) (xs : List A) → take (length (take n xs)) xs ≡ take n xs
take_twice zero xs = refl
take_twice (suc n) [] = refl
take_twice (suc n) (x ∷ xs) = ap (λ ys. x ∷ ys) (take_twice n xs)

refill_lem :
    (p : Producer)
    → IsStopped p
    → IsStopped (Queues.refill p)
      × (waiting (Queues.refill p) ≡ waiting p)
      × (length (Queues.refill p).output ≢ 0
          → (Queues.refill p).output_offset < length (Queues.refill p).output)
      × (length (Queues.refill p).output ≡ 0 → waiting (Queues.refill p) ≡ [])
unfolding Queues.refill
refill_lem p v = elim (Bool-cases (p.output_offset == length p.output)) [
  | inl all ↦ rw all (
    record {
      stopped = v.stopped;
      inside = omega arith;
      sized = v.sized;
      small = v.small;
      fits = omega (arith, v.fits);
    },
    append-nil p.output_queued
        ∙ ap (λ xs. xs ++ p.output_queued)
            (sym (drop_all p.output_offset p.output (ground (arith, all)))),
    (λ h. ground (arith, h)),
    λ h. append-nil p.output_queued ∙ no_length p.output_queued h,
  )
  | inr some_left ↦ rw some_left (
    v,
    refl,
    (λ h. ground (arith, some_left, v.inside)),
    λ h. absurd (ground (arith, some_left, v.inside, h)),
  )
]

slice_lem :
    (q : Producer)
    → IsStopped q
    → q.output_offset < length q.output
    → 0 < length (Queues.next_slice q)
unfolding Queues.next_slice
slice_lem q v left = omega (
  arith,
  v.sized,
  v.small,
  left,
  length-take (min (length q.output - q.output_offset) (mul64 q.element_size 128))
      (drop q.output_offset q.output),
  length-drop q.output_offset q.output,
)

slice_first :
    (q : Producer)
    → Queues.next_slice q ≡ take (length (Queues.next_slice q)) (drop q.output_offset q.output)
unfolding Queues.next_slice
slice_first q = sym (take_twice _ (drop q.output_offset q.output))

pub update_lem :
    (p : Producer)
    → IsStopped p
    → IsProducer (Queues.update p) × (waiting (Queues.update p) ≡ waiting p)
unfolding Queues.update
update_lem p v =
    let q = Queues.refill p in
    let (vq, same, left, done) = refill_lem p v in
    elim (Bool-cases (length q.output == 0)) [
      | inl nothing ↦
          let result : Queues.update p ≡ q = ground (arith, v.stopped, nothing) in
          rw result (
            record {
              inside = vq.inside;
              sized = vq.sized;
              small = vq.small;
              fits = vq.fits;
              idle = λ h. done (ground (arith, nothing));
              first = λ slice h. absurd (ground (arith, vq.stopped, h));
            },
            same,
          )
      | inr something ↦
          let result : Queues.update p ≡ record q { write = some (Queues.next_slice q) } =
            ground (arith, v.stopped, something) in
          rw result (
            record {
              inside = vq.inside;
              sized = vq.sized;
              small = vq.small;
              fits = vq.fits;
              idle = λ h. absurd (ground (arith, h));
              first = λ slice h.
                  let e : Queues.next_slice q ≡ slice = ground (arith, h) in
                  rw (sym e) (slice_lem q vq (left (ground (arith, something))), slice_first q);
            },
            same,
          )
    ]

push_of :
    (p : Producer) (e : List ℕ) (w : Option (List ℕ))
    → p.write ≡ w
    → IsProducer p
    → length p.output + length p.output_queued + length e < 2 ^ 63
    → IsProducer (Queues.push p e) × (waiting (Queues.push p e) ≡ waiting p ++ e)
unfolding Queues.push Queues.update
push_of p e (some slice) same v room =
    let q = record p { output_queued = p.output_queued ++ e } in
    let stays : Queues.update q ≡ q = ground (arith, same) in
    rw stays (
      record {
        inside = v.inside;
        sized = v.sized;
        small = v.small;
        fits = omega (arith, room, length-append p.output_queued e);
        idle = λ h. absurd (ground (arith, same, h));
        first = v.first;
      },
      sym (append_assoc (drop p.output_offset p.output) p.output_queued e),
    )
push_of p e none same v room =
    let (vq, kept) =
      update_lem (record p { output_queued = p.output_queued ++ e })
        (record {
          stopped = same;
          inside = v.inside;
          sized = v.sized;
          small = v.small;
          fits = omega (arith, room, length-append p.output_queued e);
        }) in
    (vq, kept ∙ sym (append_assoc (drop p.output_offset p.output) p.output_queued e))

-- An element that is pushed waits behind the others.
pub push_lem :
    (p : Producer) (e : List ℕ)
    → IsProducer p
    → length p.output + length p.output_queued + length e < 2 ^ 63
    → IsProducer (Queues.push p e) × (waiting (Queues.push p e) ≡ waiting p ++ e)
unfolding Queues.push
push_lem p e v room = push_of p e p.write refl v room

drop_sum : {A : Type 0} (o n : ℕ) (xs : List A) → drop (o + n) xs ≡ drop n (drop o xs)
drop_sum zero n xs = let same : 0 + n ≡ n = omega arith in ap (λ k. drop k xs) same
drop_sum (suc o) zero [] = let same : suc o + 0 ≡ suc o = omega arith in ap (λ k. drop k []) same
drop_sum (suc o) (suc n) [] =
    let same : suc o + suc n ≡ suc (o + suc n) = omega arith in ap (λ k. drop k []) same
drop_sum (suc o) n (x ∷ xs) =
    let same : suc o + n ≡ suc (o + n) = omega arith in
    ap (λ k. drop k (x ∷ xs)) same ∙ drop_sum o n xs

take_less : {A : Type 0} (n m : ℕ) (xs : List A) → n ≤ m → take n (take m xs) ≡ take n xs
take_less zero m xs h = refl
take_less (suc n) zero xs h = absurd (omega (arith, h))
take_less (suc n) (suc m) [] h = refl
take_less (suc n) (suc m) (x ∷ xs) h = ap (λ ys. x ∷ ys) (take_less n m xs (omega (arith, h)))

-- The bytes that the call has written wait no more.
pub wrote_lem :
    (p : Producer) (slice : List ℕ) (n : ℕ)
    → IsProducer p
    → p.write ≡ some slice
    → 0 < n
    → n ≤ length slice
    → n % p.element_size ≡ 0
    → (q : Producer) × (Queues.on_write p (wrote n) ≡ some q)
      × IsProducer q
      × (waiting p ≡ take n slice ++ waiting q)
unfolding Queues.on_write
wrote_lem p slice n v call more most whole =
    let front = v.first slice call in
    let ys = drop p.output_offset p.output in
    let enough : n ≤ length ys =
      omega (arith, most, ap length front.1, length-take (length slice) ys) in
    let sum : add64 p.output_offset n ≡ p.output_offset + n =
      omega (arith, v.fits, v.inside, enough, length-drop p.output_offset p.output) in
    let stopped = record p { write = none; output_offset = p.output_offset + n } in
    let (vq, same) = update_lem stopped (record {
      stopped = refl;
      inside = omega (arith, v.inside, enough, length-drop p.output_offset p.output);
      sized = v.sized;
      small = v.small;
      fits = v.fits;
    }) in
    let written : take n ys ≡ take n slice =
      sym (take_less n (length slice) ys most) ∙ ap (take n) (sym front.1) in
    let split : ys ≡ take n slice ++ drop (p.output_offset + n) p.output =
      sym (take-append-drop n ys)
      ∙ ap₂ (λ a b. a ++ b) written (sym (drop_sum p.output_offset n p.output)) in
    (
      Queues.update stopped,
      rw sum (ground (arith, more, whole)),
      vq,
      ap (λ a. a ++ p.output_queued) split
          ∙ append_assoc (take n slice) (drop (p.output_offset + n) p.output) p.output_queued
          ∙ ap (λ a. take n slice ++ a) (sym same),
    )

pub interrupted_lem :
    (p : Producer) (slice : List ℕ)
    → IsProducer p
    → p.write ≡ some slice
    → (q : Producer) × (Queues.on_write p interrupted ≡ some q)
      × IsProducer q
      × (waiting q ≡ waiting p)
unfolding Queues.on_write
interrupted_lem p slice v call =
    let (vq, same) =
      update_lem (record p { write = none })
        (record {
          stopped = refl;
          inside = v.inside;
          sized = v.sized;
          small = v.small;
          fits = v.fits;
        }) in
    (Queues.update (record p { write = none }), refl, vq, same)
