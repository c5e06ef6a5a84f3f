-- ===== src/Reactor/Loop.antt =====
-- `reactor_loop_once` of src/reactor/reactor.c. The callbacks are a parameter.
pub mod Drained
use libreactorng.Prelude.{
  ℕ, zero, suc, ◌+◌, ◌-◌, ◌%◌, ◌/◌, ◌^◌, Bool, true, false, not, Option, none, some, List, [], ◌∷◌,
  ◌++◌, ◌==◌, ltb, if◌then◌else◌, ◌>>=◌, length, get_elem?,
}
use libreactorng.Pools
use libreactorng.Reactor.Rings
use libreactorng.Reactor.Rings.{Cqe, Kernel, sign_extend}
use libreactorng.Reactor.State
use libreactorng.Reactor.State.{Reactor, User}

-- What the callback of a user does with an event; it may fail.
abbrev pub Callbacks : Type 0
Callbacks = User → State.Event → Reactor → Option Reactor

-- IORING_CQE_F_MORE, IORING_CQE_F_NOTIF
abbrev pub is_more : Cqe → Bool
is_more c = not (c.flags / 2 % 2 == 0)

abbrev pub is_notification : Cqe → Bool
is_notification c = not (c.flags / 8 % 2 == 0)

-- The vector of `reactor_next` at the address: the first or the second.
unfoldable pub next_vector : Reactor → (first : Bool) → List ℕ
next_vector r true = r.first
next_vector r false = r.second

unfoldable pub clear_vector : Reactor → (first : Bool) → Reactor
clear_vector r true = record r { first = [] }
clear_vector r false = record r { second = [] }

module _ (callbacks : Callbacks) where
  -- reactor_call, with REACTOR_CALL for 0
  unfoldable pub call : Reactor → (user type value : ℕ) → Option Reactor
  unfolding State.event_define
  call r user type value =
      callbacks (r.memory user) (State.event_define (r.memory user).state type value) r

  -- `for (i = 0; i < vector_size(current); i++)`
  unfoldable pub call_next : (fuel : ℕ) → Reactor → (current : Bool) → (i : ℕ) → Option Reactor
  unfolding call next_vector State.free_user
  call_next zero r current i = none
  call_next (suc fuel) r current i =
      let round = get_elem? (next_vector r current) i >>= λ user.
      call r user 0 0 >>= λ q. call_next fuel (State.free_user q user) current (i + 1) in
      if ltb i (length (next_vector r current)) then round else some r

  unfoldable pub run_next : (fuel : ℕ) → Reactor → Option Reactor
  unfolding call_next clear_vector
  run_next fuel r =
      let current = r.first_current in
      call_next fuel (record r { time = 0; first_current = not current }) current 0 >>= λ q.
      some (clear_vector q current)

  -- The callback and the release of the user for an entry.
  unfoldable pub complete : Reactor → Cqe → Option Reactor
  unfolding call State.free_user sign_extend
  complete r c = do
    called ← (if is_notification c then some r else call r c.user_data 0 (sign_extend c.res))
    some (if is_more c then called else State.free_user called c.user_data)

  -- `while (1)`
  unfoldable pub drain : (fuel : ℕ) → Reactor → Option Reactor
  unfolding complete
  drain zero r = none
  drain (suc fuel) r = Rings.cqe r.ring >>= λ t. elim t.0 [
    | none ↦ some (record r { ring = t.1 })
    | some c ↦ complete (record r { ring = t.1 }) c >>= λ q. drain fuel q
  ]

module _ (kernel : Kernel) (callbacks : Callbacks) where
  unfoldable pub loop_once : (fuel : ℕ) → Reactor → Option Reactor
  unfolding run_next drain next_vector
  loop_once fuel r = do
    q ← (if length (next_vector r r.first_current) == 0 then some r else run_next callbacks fuel r)
    let waiting = length (next_vector q q.first_current)
    if ltb waiting (Pools.size q.users)
        then (Rings.update kernel q.ring (not (waiting == 0)) >>= λ ring.
            drain callbacks fuel (record q { time = 0; ring = ring }))
        else some q

  -- `while (pool_size(&reactor.users))`
  unfoldable pub loop : (rounds fuel : ℕ) → Reactor → Option Reactor
  unfolding loop_once
  loop zero fuel r = none
  loop (suc rounds) fuel r =
      let rest = loop_once fuel r >>= λ q. loop rounds fuel q in
      if Pools.size r.users == 0 then some r else rest
