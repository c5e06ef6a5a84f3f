-- ===== src/Reactor/Loop/Drained.antt =====
-- The loop over the completed entries in `reactor_loop_once` of src/reactor/reactor.c: each entry is
-- handled once and in order.
use libreactorng.Prelude.{◌+◌, ◌-◌, ◌^◌, ◌≤◌, ℕ, ◌/◌, ◌%◌, ◌<◌, ◌≡◌, some, List, [], ◌∷◌}
use libreactorng.Pools
use libreactorng.Reactor.Rings.{Cqe}
use libreactorng.Reactor.Rings.Completed.{Completed, taken}
use libreactorng.Reactor.State
use libreactorng.Reactor.State.{Reactor, User, Event}
use libreactorng.Reactor.Loop
use libreactorng.Reactor.Loop.{Callbacks}

-- The user of an entry stays in use when the kernel announces more entries for it, by the bit 1 of the
-- flags, and is free behind its last entry.
pub data Releases (c : Cqe) (s q : Reactor) : Type 0 where
  more_to_come : c.flags / 2 % 2 ≡ 1 → q ≡ s → Releases c s q
  last_one :
      c.flags / 2 % 2 ≡ 0 → q ≡ record s { users = Pools.free s.users c.user_data } → Releases c s q

-- The result of 32 bits with a sign as an unsigned integer of 64 bits.
pub data Extends (res : ℕ) : ℕ → Type 0 where
  positive : res < 2 ^ 31 → Extends res res
  negative : 2 ^ 31 ≤ res → Extends res (res + (2 ^ 64 - 2 ^ 32))

-- The event that the callback of a user gets for an entry.
abbrev pub result_event : User → (value : ℕ) → Event
result_event user value = record { state = user.state; type = 0; value = value }

-- Handling an entry: a notification, by the bit 3 of the flags, calls nothing; another entry calls the
-- callback of its user with the result, and the callback returns.
pub data Handles (callbacks : Callbacks) (r : Reactor) (c : Cqe) (q : Reactor) : Type 0 where
  notified : c.flags / 8 % 2 ≡ 1 → Releases c r q → Handles callbacks r c q
  called :
      (s : Reactor) (value : ℕ)
      → c.flags / 8 % 2 ≡ 0
      → Extends c.res value
      → callbacks (r.memory c.user_data) (result_event (r.memory c.user_data) value) r ≡ some s
      → Releases c s q
      → Handles callbacks r c q

-- The entries that are handled from `r` on until none is completed: always the oldest of those that are
-- completed then, which may have become more meanwhile.
pub data Drains (callbacks : Callbacks) : Reactor → List Cqe → Reactor → Type 0 where
  none_left : {r : Reactor} → Completed r.ring [] → Drains callbacks r [] r
  oldest :
      {r q t : Reactor} {c : Cqe} {others more : List Cqe}
      → Completed r.ring (c ∷ others)
      → Handles callbacks (record r { ring = taken r.ring }) c q
      → Drains callbacks q more t
      → Drains callbacks r (c ∷ more) t
