-- ===== src/Queues.antt =====
-- The producer of src/reactor/queue.c: elements on their way into a pipe. A buffer is the list of its
-- bytes (Buffer), and the call of the event loop that writes is the slice of bytes that it was given.
pub mod Order
pub mod Runs
use libreactorng.Prelude.{
  ℕ, zero, suc, ◌+◌, ◌-◌, ◌*◌, ◌%◌, ◌^◌, ◌≤◌, ◌<◌, Bool, true, false, ◌&&◌, Option, none, some,
  List, [], ◌∷◌, ◌++◌, ◌==◌, ltb, if◌then◌else◌, ◌>>=◌, length, take, drop, min,
}
use libreactorng.Prelude.Int.{ℤ, pos, negsuc}
use libreactorng.Prelude.Words.{mul64, add64}

-- struct queue_producer, open on a queue with elements of `element_size` bytes.
pub record Producer : Type 0 where
  pub element_size : ℕ
  pub output : List ℕ
  pub output_offset : ℕ
  pub output_queued : List ℕ
  pub write : Option (List ℕ)

-- queue_producer_construct and queue_producer_open
unfoldable pub construct : (element_size : ℕ) → Producer
construct element_size = record {
  element_size = element_size;
  output = [];
  output_offset = 0;
  output_queued = [];
  write = none;
}

-- The buffers change places when all of the output is written.
unfoldable pub refill : Producer → Producer
refill p =
    if p.output_offset == length p.output
    then record p { output = p.output_queued; output_offset = 0; output_queued = [] }
    else p

-- The bytes that a call is given: at most 128 elements.
unfoldable pub next_slice : Producer → List ℕ
next_slice p =
    take (min (length p.output - p.output_offset) (mul64 p.element_size 128))
      (drop p.output_offset p.output)

unfoldable pub update : Producer → Producer
unfolding refill next_slice
update p = elim p.write [
  | some slice ↦ p
  | none ↦
      (let q = refill p in
        if length q.output == 0 then q else record q { write = some (next_slice q) })
]

unfoldable pub push : Producer → (element : List ℕ) → Producer
push p element = update (record p { output_queued = p.output_queued ++ element })

-- The result of a call, or an error other than EINTR, which is a failed assertion.
pub data Result : Type 0 where
  interrupted : Result
  failed : Result
  wrote : ℕ → Result

unfoldable pub on_write : Producer → Result → Option Producer
on_write p interrupted = some (update (record p { write = none }))
on_write p failed = none
on_write p (wrote n) =
    if ltb 0 n && (n % p.element_size == 0)
    then some (update (record p { write = none; output_offset = add64 p.output_offset n }))
    else none
