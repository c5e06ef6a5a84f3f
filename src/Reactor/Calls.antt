-- ===== src/Reactor/Calls.antt =====
-- The calls of src/reactor/reactor.c. An `int`, a `short` and a pointer are given by their bits; an
-- entry has zeros where a call sets nothing.
pub mod Cancelled
pub mod Entries
use libreactorng.Prelude.{
  ℕ, zero, suc, ◌+◌, ◌-◌, ◌%◌, ◌^◌, Bool, true, false, Option, none, some, List, [], ◌∷◌, ◌++◌,
  ◌==◌, if◌then◌else◌, ◌>>=◌, ltb, bit_or,
}
use libreactorng.Reactor.Rings.{Sqe, Opcode, sign_extend}
use libreactorng.Reactor.State
use libreactorng.Reactor.State.{Reactor, World, assign, user_define}

-- IORING_POLL_ADD_MULTI, IORING_POLL_UPDATE_EVENTS
abbrev pub poll_add_multi_flag : ℕ
poll_add_multi_flag = 1

abbrev pub poll_update_events_flag : ℕ
poll_update_events_flag = 2

abbrev pub blank : Opcode → Sqe
blank opcode = record {
  opcode = opcode;
  fd = 0;
  off = 0;
  addr = 0;
  len = 0;
  op_flags = 0;
  user_data = 0;
}

module _ (world : World) where
  unfoldable pub async_cancel : Reactor → Option ℕ → ℕ → (user_data : ℕ) → Option (ℕ × Reactor)
  async_cancel r callback state user_data =
      State.submit world r callback state
        (λ user. record (blank Opcode.async_cancel) { addr = user_data; user_data = user })

  unfoldable pub nop : Reactor → Option ℕ → ℕ → Option (ℕ × Reactor)
  nop r callback state =
      State.submit world r callback state (λ user. record (blank Opcode.nop) { user_data = user })

  unfoldable pub readv : Reactor → Option ℕ → ℕ → (fd iov iovcnt offset : ℕ) → Option (ℕ × Reactor)
  readv r callback state fd iov iovcnt offset = State.submit world r callback state (λ user.
      record (blank Opcode.readv) {
        fd = fd;
        addr = iov;
        off = offset;
        len = iovcnt;
        user_data = user;
      })

  unfoldable pub writev : Reactor → Option ℕ → ℕ → (fd iov iovcnt offset : ℕ) → Option (ℕ × Reactor)
  writev r callback state fd iov iovcnt offset = State.submit world r callback state (λ user.
      record (blank Opcode.writev) {
        fd = fd;
        addr = iov;
        off = offset;
        len = iovcnt;
        user_data = user;
      })

  unfoldable pub fsync : Reactor → Option ℕ → ℕ → (fd : ℕ) → Option (ℕ × Reactor)
  fsync r callback state fd =
      State.submit world r callback state
        (λ user. record (blank Opcode.fsync) { fd = fd; user_data = user })

  unfoldable pub poll_add : Reactor → Option ℕ → ℕ → (fd events : ℕ) → Option (ℕ × Reactor)
  poll_add r callback state fd events =
      State.submit world r callback state
        (λ user. record (blank Opcode.poll_add) { fd = fd; op_flags = events; user_data = user })

  unfoldable pub poll_add_multi : Reactor → Option ℕ → ℕ → (fd events : ℕ) → Option (ℕ × Reactor)
  poll_add_multi r callback state fd events = State.submit world r callback state (λ user.
      record (blank Opcode.poll_add) {
        fd = fd;
        op_flags = events;
        len = poll_add_multi_flag;
        user_data = user;
      })

  unfoldable pub poll_update : Reactor → Option ℕ → ℕ → (id events : ℕ) → Option (ℕ × Reactor)
  poll_update r callback state id events = State.submit world r callback state (λ user.
      record (blank Opcode.poll_remove) {
        len = poll_update_events_flag;
        op_flags = events;
        addr = id;
        user_data = user;
      })

  unfoldable pub poll_remove : Reactor → Option ℕ → ℕ → (id : ℕ) → Option (ℕ × Reactor)
  poll_remove r callback state id =
      State.submit world r callback state
        (λ user. record (blank Opcode.poll_remove) { addr = id; user_data = user })

  unfoldable pub epoll_ctl :
      Reactor → Option ℕ → ℕ → (epoll_fd op fd event : ℕ) → Option (ℕ × Reactor)
  unfolding sign_extend
  epoll_ctl r callback state epoll_fd op fd event = State.submit world r callback state (λ user.
      record (blank Opcode.epoll_ctl) {
        fd = epoll_fd;
        addr = event;
        len = op;
        off = sign_extend fd;
        user_data = user;
      })

  unfoldable pub sync_file_range :
      Reactor → Option ℕ → ℕ → (fd offset nbytes flags : ℕ) → Option (ℕ × Reactor)
  sync_file_range r callback state fd offset nbytes flags =
      State.submit world r callback state (λ user. record (blank Opcode.sync_file_range) {
        fd = fd;
        off = offset;
        len = nbytes % 2 ^ 32;
        op_flags = flags;
        user_data = user;
      })

  unfoldable pub sendmsg :
      Reactor → Option ℕ → ℕ → (socket message flags : ℕ) → Option (ℕ × Reactor)
  sendmsg r callback state socket message flags = State.submit world r callback state (λ user.
      record (blank Opcode.sendmsg) {
        fd = socket;
        addr = message;
        op_flags = flags;
        user_data = user;
      })

  unfoldable pub recvmsg :
      Reactor → Option ℕ → ℕ → (socket message flags : ℕ) → Option (ℕ × Reactor)
  recvmsg r callback state socket message flags = State.submit world r callback state (λ user.
      record (blank Opcode.recvmsg) {
        fd = socket;
        addr = message;
        op_flags = flags;
        user_data = user;
      })

  unfoldable pub send : Reactor → Option ℕ → ℕ → (fd base size flags : ℕ) → Option (ℕ × Reactor)
  send r callback state fd base size flags = State.submit world r callback state (λ user.
      record (blank Opcode.send) {
        fd = fd;
        addr = base;
        op_flags = flags;
        len = size % 2 ^ 32;
        user_data = user;
      })

  unfoldable pub recv : Reactor → Option ℕ → ℕ → (fd base size flags : ℕ) → Option (ℕ × Reactor)
  recv r callback state fd base size flags = State.submit world r callback state (λ user.
      record (blank Opcode.recv) {
        fd = fd;
        addr = base;
        op_flags = flags;
        len = size % 2 ^ 32;
        user_data = user;
      })

  unfoldable pub timeout : Reactor → Option ℕ → ℕ → (tv count flags : ℕ) → Option (ℕ × Reactor)
  unfolding sign_extend
  timeout r callback state tv count flags = State.submit world r callback state (λ user.
      record (blank Opcode.timeout) {
        addr = tv;
        len = 1;
        off = sign_extend count;
        op_flags = flags;
        user_data = user;
      })

  unfoldable pub accept :
      Reactor → Option ℕ → ℕ → (fd addr addrlen flags : ℕ) → Option (ℕ × Reactor)
  accept r callback state fd addr addrlen flags = State.submit world r callback state (λ user.
      record (blank Opcode.accept) {
        fd = fd;
        addr = addr;
        off = addrlen;
        op_flags = flags;
        user_data = user;
      })

  unfoldable pub read : Reactor → Option ℕ → ℕ → (fd base size offset : ℕ) → Option (ℕ × Reactor)
  read r callback state fd base size offset = State.submit world r callback state (λ user.
      record (blank Opcode.read) {
        fd = fd;
        addr = base;
        off = offset;
        len = size % 2 ^ 32;
        user_data = user;
      })

  unfoldable pub write : Reactor → Option ℕ → ℕ → (fd base size offset : ℕ) → Option (ℕ × Reactor)
  write r callback state fd base size offset = State.submit world r callback state (λ user.
      record (blank Opcode.write) {
        fd = fd;
        addr = base;
        off = offset;
        len = size % 2 ^ 32;
        user_data = user;
      })

  unfoldable pub connect : Reactor → Option ℕ → ℕ → (fd addr addrlen : ℕ) → Option (ℕ × Reactor)
  connect r callback state fd addr addrlen = State.submit world r callback state (λ user.
      record (blank Opcode.connect) { fd = fd; addr = addr; off = addrlen; user_data = user })

  unfoldable pub fallocate :
      Reactor → Option ℕ → ℕ → (fd mode offset len : ℕ) → Option (ℕ × Reactor)
  fallocate r callback state fd mode offset len = State.submit world r callback state (λ user.
      record (blank Opcode.fallocate) {
        fd = fd;
        len = mode;
        off = offset;
        addr = len;
        user_data = user;
      })

  unfoldable pub openat : Reactor → Option ℕ → ℕ → (dfd path flags mode : ℕ) → Option (ℕ × Reactor)
  openat r callback state dfd path flags mode = State.submit world r callback state (λ user.
      record (blank Opcode.openat) {
        fd = dfd;
        addr = path;
        op_flags = flags;
        len = mode;
        user_data = user;
      })

  unfoldable pub close : Reactor → Option ℕ → ℕ → (fd : ℕ) → Option (ℕ × Reactor)
  close r callback state fd =
      State.submit world r callback state
        (λ user. record (blank Opcode.close) { fd = fd; user_data = user })

  unfoldable pub send_zerocopy :
      Reactor → Option ℕ → ℕ → (fd base size flags : ℕ) → Option (ℕ × Reactor)
  send_zerocopy r callback state fd base size flags = State.submit world r callback state (λ user.
      record (blank Opcode.send_zc) {
        fd = fd;
        addr = base;
        op_flags = flags;
        len = size % 2 ^ 32;
        user_data = user;
      })

  -- `*user = reactor_user_define(callback, state)`, and the entry that cancels a call of the kernel;
  -- a call of `next` is marked by its lowest bit.
  unfoldable pub cancel : Reactor → (id : ℕ) → Option ℕ → ℕ → Option Reactor
  unfolding assign user_define
  cancel r id callback state =
      let user = id - id % 2 in
      let redefined = record r { memory = assign r.memory user (user_define callback state) } in
      if id % 2 == 0 then (async_cancel redefined none 0 user >>= λ t. some t.1) else some redefined

  unfoldable pub next : Reactor → Option ℕ → ℕ → Option (ℕ × Reactor)
  next r callback state = do
    t ← State.alloc_user world r callback state
    let pushed =
        (if t.1.first_current
          then record t.1 { first = t.1.first ++ (t.0 ∷ []) }
          else record t.1 { second = t.1.second ++ (t.0 ∷ []) })
    some (bit_or t.0 1, pushed)
