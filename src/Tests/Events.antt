-- ===== src/Tests/Events.antt =====
-- pool.c and reactor.c at an empty ring and a ring with a completed entry.
use libreactorng.Prelude.{
  ℕ, suc, ◌+◌, ◌-◌, ◌^◌, ◌≤◌, ◌≡◌, refl, true, none, some, List, [], ◌∷◌, ◌++◌, ◌==◌, if◌then◌else◌,
  arith, replicate, length-replicate, max, inr,
}
use libreactorng.Pools
use libreactorng.Pools.{Pool}
use libreactorng.Pools.Counts.{
  IsPool, IsFresh, Apart, count, all_objects, count-append, count-objects, malloc_lem, free_lem,
}
use libreactorng.Reactor.Rings
use libreactorng.Reactor.Rings.{Ring, Sqe, Cqe, Kernel, Opcode, sub32, sign_extend}
use libreactorng.Reactor.Rings.Pending.{IsRing, IsKernel, pending, queue_lem}
use libreactorng.Reactor.Rings.Completed.{Completed, taken}
use libreactorng.Reactor.State
use libreactorng.Reactor.State.{Reactor, World, User}
use libreactorng.Reactor.State.Queueing.{IsReactor, IsWorld}
use libreactorng.Reactor.Calls.Entries.{AllQueued, calls_lem}
use libreactorng.Reactor.Calls
use libreactorng.Reactor.Loop
use libreactorng.Reactor.Loop.{Callbacks}

-- A kernel that takes all entries and completes none.
abbrev taking : Kernel
taking r to_submit min_complete = (record r { sq_head = r.sq_tail }, to_submit)

taking-IsKernel : IsKernel taking
taking-IsKernel = record {
  taken = λ r m v. refl;
  behind = λ r m v. (
    record {
      size = v.size;
      mask = v.mask;
      entries = v.entries;
      array = v.array;
      head = v.tail;
      tail = v.tail;
      few = omega (arith, v.tail);
      direct = λ k less. absurd (omega (arith, v.tail, less));
    },
    refl,
    refl,
  );
}

abbrev top : List ℕ → ℕ
top [] = 0
top (c ∷ chunks) = max c (top chunks)

abbrev above : List ℕ → ℕ → ℕ
above chunks bytes = top chunks + bytes

above_all : (bytes t : ℕ) (chunks : List ℕ) → top chunks + bytes ≤ t → Apart bytes t chunks
above_all bytes t [] h = tt
above_all bytes t (c ∷ chunks) h =
    (inr (omega (arith, h)), above_all bytes t chunks (omega (arith, h)))

above-IsFresh : IsFresh above
above-IsFresh chunks bytes = above_all bytes (above chunks bytes) chunks (omega arith)

abbrev empty_pool : Pool
empty_pool = record { size = 16; allocated = 0; chunks = []; free = [] }

empty_pool-IsPool : IsPool empty_pool []
unfolding count all_objects
empty_pool-IsPool = record {
  sized = omega arith;
  each = λ a. refl;
  once = λ a. omega arith;
  allocated = refl;
  small = omega arith;
}

malloc_lem_example :
    (o : ℕ) × (p : Pool) × (Pools.malloc above empty_pool ≡ some (o, p))
    × IsPool p (o ∷ [])
    × (count o [] ≡ 0)
malloc_lem_example = malloc_lem above empty_pool [] above-IsFresh empty_pool-IsPool (omega arith)

-- The pool whose first two objects are in use.
abbrev used_pool : Pool
used_pool = record { size = 16; allocated = 2; chunks = 0 ∷ []; free = Pools.objects 16 126 32 }

first_two :
    (n a : ℕ)
    → count a (Pools.objects 16 (suc (suc n)) 0)
      ≡ count a (Pools.objects 16 n 32) + count a (0 ∷ 16 ∷ [])
unfolding Pools.objects count
first_two n a = omega arith

only_chunk : (a : ℕ) → count a (all_objects 16 (0 ∷ [])) ≡ count a (Pools.objects 16 128 0)
unfolding all_objects count
only_chunk a = omega (arith, count-append a (Pools.objects 16 128 0) [])

used_pool-IsPool : IsPool used_pool (0 ∷ 16 ∷ [])
used_pool-IsPool = record {
  sized = omega arith;
  each = λ a. omega (arith, first_two 126 a, only_chunk a);
  once = λ a. omega (arith, only_chunk a, count-objects a 16 128 0 (omega arith));
  allocated = refl;
  small = omega arith;
}

free_lem_example : IsPool (Pools.free used_pool 0) ([] ++ (16 ∷ []))
free_lem_example = free_lem used_pool [] 0 (16 ∷ []) used_pool-IsPool

abbrev no_entry : Sqe
no_entry = Calls.blank Opcode.nop

abbrev result : Cqe
result = record { user_data = 16; res = 5; flags = 0 }

abbrev empty_ring : Ring
empty_ring = record {
  size = 4096;
  sqe = replicate 4096 no_entry;
  sq_mask = 4095;
  sq_head = 2 ^ 32 - 1;
  sq_tail = 2 ^ 32 - 1;
  sq_array = replicate 4096 0;
  cqe = result ∷ [];
  cq_mask = 0;
  cq_head = 7;
  cq_tail = 8;
}

empty_ring-IsRing : IsRing empty_ring
empty_ring-IsRing = record {
  size = refl;
  mask = refl;
  entries = length-replicate 4096 no_entry;
  array = length-replicate {A = ℕ} 4096 0;
  head = omega arith;
  tail = omega arith;
  few = omega arith;
  direct = λ k less. absurd (omega (arith, less));
}

queue_lem_example :
    (r' : Ring) × (Rings.queue taking empty_ring (Calls.blank Opcode.close) ≡ some r')
    × IsRing r'
    × (pending r'
        ≡ (if sub32 (2 ^ 32 - 1) (2 ^ 32 - 1) == 4096 then [] else pending empty_ring)
          ++ (some (Calls.blank Opcode.close) ∷ []))
queue_lem_example =
    queue_lem taking empty_ring (Calls.blank Opcode.close) taking-IsKernel empty_ring-IsRing

abbrev idle : Reactor
idle = record {
  ring = empty_ring;
  users = empty_pool;
  memory = λ a. State.user_define none 0;
  first_current = true;
  first = [];
  second = [];
  time = 0;
}

abbrev world : World
world = record { kernel = taking; fresh = above }

world-IsWorld : IsWorld world
world-IsWorld = record { kernel = taking-IsKernel; fresh = above-IsFresh }

idle-IsReactor : IsReactor idle []
idle-IsReactor = record { ring = empty_ring-IsRing; users = empty_pool-IsPool }

calls_lem_example : AllQueued world idle [] (some 9) 1 3 100 5 0
calls_lem_example =
    calls_lem world idle [] (some 9) 1 3 100 5 0 world-IsWorld idle-IsReactor (omega arith)

abbrev busy : Reactor
busy = record idle { users = used_pool }

-- A callback that notes the value of the event; it fails for another state than 0.
abbrev forgetting : Callbacks
forgetting user event r = if event.state == 0 then some (record r { time = event.value }) else none

-- The entry of the user 16 is handled.
abbrev handled_one : Reactor
handled_one = record busy { ring = taken empty_ring; time = 5; users = Pools.free used_pool 16 }
