-- ===== src/Reactor/State.antt =====
-- The thread's state in src/reactor/reactor.c, and a call: a user and an entry of the ring.
pub mod Queueing
use libreactorng.Prelude.{
  ℕ, zero, suc, ◌+◌, ◌-◌, ◌%◌, ◌^◌, Bool, true, false, Option, none, some, List, [], ◌∷◌, ◌++◌,
  ◌==◌, if◌then◌else◌, ◌>>=◌,
}
use libreactorng.Pools
use libreactorng.Pools.{Pool}
use libreactorng.Reactor.Rings
use libreactorng.Reactor.Rings.{Ring, Sqe, Kernel}

-- A function, by its address, or reactor_user_callback.
pub data Callback : Type 0 where
  ignore : Callback
  code : ℕ → Callback

-- struct reactor_event
pub record Event : Type 0 where
  pub state : ℕ
  pub type : ℕ
  pub value : ℕ

-- struct reactor_user
pub record User : Type 0 where
  pub callback : Callback
  pub state : ℕ

-- A NULL callback is `none`.
unfoldable pub user_define : Option ℕ → ℕ → User
user_define none state = record { callback = ignore; state = state }
user_define (some f) state = record { callback = code f; state = state }

unfoldable pub event_define : (state type value : ℕ) → Event
event_define state type value = record { state = state; type = type; value = value }

-- The ring, the pool of users, what the users' memory holds, and the two vectors of `reactor_next`.
pub record Reactor : Type 0 where
  pub ring : Ring
  pub users : Pool
  pub memory : ℕ → User
  pub first_current : Bool
  pub first : List ℕ
  pub second : List ℕ
  pub time : ℕ

-- `*user = value`
unfoldable pub assign : (ℕ → User) → ℕ → User → ℕ → User
assign memory address value a = if a == address then value else memory a

-- What the reactor asks of its surroundings: the kernel, and the address of new memory.
pub record World : Type 0 where
  pub kernel : Kernel
  pub fresh : List ℕ → ℕ → ℕ

module _ (world : World) where
  unfoldable pub alloc_user : Reactor → Option ℕ → ℕ → Option (ℕ × Reactor)
  unfolding assign user_define
  alloc_user r callback state = Pools.malloc world.fresh r.users >>= λ t.
      some
        (t.0, record r { users = t.1; memory = assign r.memory t.0 (user_define callback state) })

  -- A user, and an entry that names it.
  unfoldable pub submit : Reactor → Option ℕ → ℕ → (ℕ → Sqe) → Option (ℕ × Reactor)
  unfolding alloc_user
  submit r callback state entry = do
    t ← alloc_user r callback state
    ring ← Rings.queue world.kernel t.1.ring (entry t.0)
    some (t.0, record t.1 { ring = ring })

unfoldable pub free_user : Reactor → ℕ → Reactor
free_user r user = record r { users = Pools.free r.users user }
