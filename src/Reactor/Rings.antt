-- ===== src/Reactor/Rings.antt =====
-- `reactor_ring_` of src/reactor/reactor.c: the entries that are submitted to the kernel and those
-- that it completed. Both queues are in memory shared with the kernel.
pub mod Pending
pub mod Completed
use libreactorng.Prelude.{
  ℕ, zero, suc, ◌+◌, ◌-◌, ◌%◌, ◌^◌, Bool, true, false, Option, none, some, List, [], ◌∷◌, ◌==◌, ltb,
  if◌then◌else◌, ◌>>=◌, length, set, get_elem?, bit_and,
}

-- IORING_OP_NOP and so on.
pub data Opcode : Type 0 where
  nop : Opcode
  readv : Opcode
  writev : Opcode
  fsync : Opcode
  poll_add : Opcode
  poll_remove : Opcode
  epoll_ctl : Opcode
  sync_file_range : Opcode
  sendmsg : Opcode
  recvmsg : Opcode
  send : Opcode
  recv : Opcode
  timeout : Opcode
  accept : Opcode
  async_cancel : Opcode
  read : Opcode
  write : Opcode
  connect : Opcode
  fallocate : Opcode
  openat : Opcode
  close : Opcode
  send_zc : Opcode

-- struct io_uring_sqe: what the code sets. `off` and `addr2` are one field, and so are `poll_events`,
-- `msg_flags` and the other flags of a call.
pub record Sqe : Type 0 where
  pub opcode : Opcode
  pub fd : ℕ
  pub off : ℕ
  pub addr : ℕ
  pub len : ℕ
  pub op_flags : ℕ
  pub user_data : ℕ

-- struct io_uring_cqe; `res` is an `int`, given by its bits.
pub record Cqe : Type 0 where
  pub user_data : ℕ
  pub res : ℕ
  pub flags : ℕ

pub record Ring : Type 0 where
  pub size : ℕ
  pub sqe : List Sqe
  pub sq_mask : ℕ
  pub sq_head : ℕ
  pub sq_tail : ℕ
  pub sq_array : List ℕ
  pub cqe : List Cqe
  pub cq_mask : ℕ
  pub cq_head : ℕ
  pub cq_tail : ℕ

-- io_uring_enter: the ring behind the call with `to_submit` and `min_complete`, and its result.
abbrev pub Kernel : Type 0
Kernel = Ring → (to_submit min_complete : ℕ) → Ring × ℕ

-- `uint32_t` arithmetic.
abbrev pub add32 : ℕ → ℕ → ℕ
add32 a b = (a + b) % 2 ^ 32

abbrev pub sub32 : ℕ → ℕ → ℕ
sub32 a b = (a + (2 ^ 32 - b % 2 ^ 32)) % 2 ^ 32

-- An `int` as a 64-bit integer.
unfoldable pub sign_extend : ℕ → ℕ
sign_extend n = if ltb n (2 ^ 31) then n else n + (2 ^ 64 - 2 ^ 32)

-- `xs[i] = x`
unfoldable pub store : {A : Type 0} → List A → ℕ → A → Option (List A)
store xs i x = if ltb i (length xs) then some (set xs i x) else none

module _ (kernel : Kernel) where
  unfoldable pub flush : Ring → Option Ring
  flush ring =
      let to_submit = sub32 ring.sq_tail ring.sq_head in
      let entered = kernel ring to_submit 0 in
      if to_submit == ring.size
      then (if entered.1 == to_submit then some entered.0 else none)
      else some ring

  -- The place of the entry, which the caller writes.
  unfoldable pub sqe : Ring → Option (ℕ × Ring)
  unfolding flush store
  sqe ring = do
    r ← flush ring
    let i = bit_and r.sq_tail r.sq_mask
    array ← store r.sq_array i i
    if ltb i (length r.sqe)
        then some (i, record r { sq_tail = add32 r.sq_tail 1; sq_array = array })
        else none

  -- `*reactor_ring_sqe(ring) = entry`
  unfoldable pub queue : Ring → Sqe → Option Ring
  unfolding sqe store
  queue ring entry = do
    place ← sqe ring
    entries ← store place.1.sqe place.0 entry
    some (record place.1 { sqe = entries })

  unfoldable pub update : Ring → (dont_block : Bool) → Option Ring
  update ring dont_block =
      let to_submit = sub32 ring.sq_tail ring.sq_head in
      let entered = kernel ring to_submit (if dont_block then 0 else 1) in
      if entered.1 == to_submit then some entered.0 else none

-- NULL, or the next completed entry.
unfoldable pub cqe : Ring → Option (Option Cqe × Ring)
cqe ring =
    if ring.cq_head == ring.cq_tail
    then some (none, ring)
    else get_elem? ring.cqe (bit_and ring.cq_head ring.cq_mask) >>= λ c.
        some (some c, record ring { cq_head = add32 ring.cq_head 1 })
