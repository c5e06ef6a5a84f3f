-- ===== src/Reactor/State/Queueing.antt =====
-- What a call of src/reactor/reactor.c does to the reactor.
use libreactorng.Prelude.{
  ℕ, suc, ◌^◌, ◌<◌, ◌≡◌, ◌≢◌, Option, some, List, [], ◌∷◌, ◌++◌, ◌==◌, if◌then◌else◌, length, arith,
}
use libreactorng.Pools.Counts.{IsPool, IsFresh, count, malloc_lem}
use libreactorng.Reactor.Rings.{Sqe, sub32}
use libreactorng.Reactor.Rings.Pending.{IsRing, IsKernel, pending, queue_lem}
use libreactorng.Reactor.State
use libreactorng.Reactor.State.{Reactor, World, User}

-- `live` are the users that are in use.
pub record IsReactor (r : Reactor) (live : List ℕ) : Type 0 where
  pub ring : IsRing r.ring
  pub users : IsPool r.users live

pub record IsWorld (world : World) : Type 0 where
  pub kernel : IsKernel world.kernel
  pub fresh : IsFresh world.fresh

-- What a call gives: a user that was not in use, with the callback and the state, no other user
-- changed, and the entry behind those that wait for the kernel, unless the ring was full: then the
-- kernel has taken those.
abbrev pub Queued :
    Reactor → (live : List ℕ) → Option ℕ → (state : ℕ) → (ℕ → Sqe) → Option (ℕ × Reactor) → Type 0
Queued r live callback state entry o =
    (user : ℕ) × (r' : Reactor) × (o ≡ some (user, r'))
    × IsReactor r' (user ∷ live)
    × (count user live ≡ 0)
    × (r'.memory user ≡ State.user_define callback state)
    × ((other : ℕ) → other ≢ user → r'.memory other ≡ r.memory other)
    × (pending r'.ring
        ≡ (if sub32 r.ring.sq_tail r.ring.sq_head == 4096 then [] else pending r.ring)
          ++ (some (entry user) ∷ []))

pub submit_lem :
    (world : World) (r : Reactor) (live : List ℕ) (callback : Option ℕ) (state : ℕ)
    (entry : ℕ → Sqe)
    → IsWorld world
    → IsReactor r live
    → suc (length live) < 2 ^ 63
    → Queued r live callback state entry (State.submit world r callback state entry)
unfolding State.submit State.alloc_user State.assign
submit_lem world r live callback state entry w v room =
    let (user, users, allocated, vu, new) =
      malloc_lem world.fresh r.users live w.fresh v.users room in
    let (ring, queued, vr, waits) = queue_lem world.kernel r.ring (entry user) w.kernel v.ring in
    (
      user,
      record r {
        ring = ring;
        users = users;
        memory = State.assign r.memory user (State.user_define callback state);
      },
      ground (arith, allocated, queued),
      record { ring = vr; users = vu },
      new,
      ground arith,
      λ other h. ground (arith, h),
      waits,
    )
