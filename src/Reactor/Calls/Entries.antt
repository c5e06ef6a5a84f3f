-- ===== src/Reactor/Calls/Entries.antt =====
-- Every call of src/reactor/reactor.c, and the entry that it queues.
use libreactorng.Prelude.{ℕ, ◌%◌, ◌^◌, ◌<◌, Option, List, length, suc}
use libreactorng.Reactor.Rings.{Sqe, Opcode, sign_extend}
use libreactorng.Reactor.State.{Reactor, World}
use libreactorng.Reactor.State.Queueing.{IsReactor, IsWorld, Queued, submit_lem}
use libreactorng.Reactor.Calls

-- An entry by its fields.
abbrev pub entry : Opcode → (fd off addr len op_flags user_data : ℕ) → Sqe
entry opcode fd off addr len op_flags user_data = record {
  opcode = opcode;
  fd = fd;
  off = off;
  addr = addr;
  len = len;
  op_flags = op_flags;
  user_data = user_data;
}

-- What all calls give, for their arguments.
abbrev pub AllQueued : World → Reactor → List ℕ → Option ℕ → (state fd a b c : ℕ) → Type 0
AllQueued world r live callback state fd a b c =
    Queued r live callback state (entry Opcode.nop 0 0 0 0 0) (Calls.nop world r callback state)
    × Queued r live callback state (entry Opcode.readv fd c a b 0)
        (Calls.readv world r callback state fd a b c)
    × Queued r live callback state (entry Opcode.writev fd c a b 0)
        (Calls.writev world r callback state fd a b c)
    × Queued r live callback state (entry Opcode.fsync fd 0 0 0 0)
        (Calls.fsync world r callback state fd)
    × Queued r live callback state (entry Opcode.poll_add fd 0 0 0 a)
        (Calls.poll_add world r callback state fd a)
    × Queued r live callback state (entry Opcode.poll_add fd 0 0 1 a)
        (Calls.poll_add_multi world r callback state fd a)
    × Queued r live callback state (entry Opcode.poll_remove 0 0 a 2 b)
        (Calls.poll_update world r callback state a b)
    × Queued r live callback state (entry Opcode.poll_remove 0 0 a 0 0)
        (Calls.poll_remove world r callback state a)
    × Queued r live callback state (entry Opcode.epoll_ctl a (sign_extend fd) c b 0)
        (Calls.epoll_ctl world r callback state a b fd c)
    × Queued r live callback state (entry Opcode.sync_file_range fd a 0 (b % 2 ^ 32) c)
        (Calls.sync_file_range world r callback state fd a b c)
    × Queued r live callback state (entry Opcode.sendmsg fd 0 a 0 b)
        (Calls.sendmsg world r callback state fd a b)
    × Queued r live callback state (entry Opcode.recvmsg fd 0 a 0 b)
        (Calls.recvmsg world r callback state fd a b)
    × Queued r live callback state (entry Opcode.send fd 0 a (b % 2 ^ 32) c)
        (Calls.send world r callback state fd a b c)
    × Queued r live callback state (entry Opcode.recv fd 0 a (b % 2 ^ 32) c)
        (Calls.recv world r callback state fd a b c)
    × Queued r live callback state (entry Opcode.timeout 0 (sign_extend b) a 1 c)
        (Calls.timeout world r callback state a b c)
    × Queued r live callback state (entry Opcode.accept fd b a 0 c)
        (Calls.accept world r callback state fd a b c)
    × Queued r live callback state (entry Opcode.async_cancel 0 0 a 0 0)
        (Calls.async_cancel world r callback state a)
    × Queued r live callback state (entry Opcode.read fd c a (b % 2 ^ 32) 0)
        (Calls.read world r callback state fd a b c)
    × Queued r live callback state (entry Opcode.write fd c a (b % 2 ^ 32) 0)
        (Calls.write world r callback state fd a b c)
    × Queued r live callback state (entry Opcode.connect fd b a 0 0)
        (Calls.connect world r callback state fd a b)
    × Queued r live callback state (entry Opcode.fallocate fd b c a 0)
        (Calls.fallocate world r callback state fd a b c)
    × Queued r live callback state (entry Opcode.openat fd 0 a c b)
        (Calls.openat world r callback state fd a b c)
    × Queued r live callback state (entry Opcode.close fd 0 0 0 0)
        (Calls.close world r callback state fd)
    × Queued r live callback state (entry Opcode.send_zc fd 0 a (b % 2 ^ 32) c)
        (Calls.send_zerocopy world r callback state fd a b c)

-- Every call takes a user that is not in use and gives it the callback and the state, changes no other
-- user, and puts the entry of its arguments behind those that wait for the kernel; when the ring is
-- full, the kernel takes all entries that wait first. The kernel and the memory keep their promises,
-- the reactor is valid, and fewer than 2 ^ 63 - 1 users are in use.
pub calls_lem :
    (world : World) (r : Reactor) (live : List ℕ) (callback : Option ℕ) (state fd a b c : ℕ)
    → IsWorld world
    → IsReactor r live
    → suc (length live) < 2 ^ 63
    → AllQueued world r live callback state fd a b c
unfolding Calls.nop Calls.readv Calls.writev Calls.fsync Calls.poll_add Calls.poll_add_multi
    Calls.poll_update Calls.poll_remove Calls.epoll_ctl Calls.sync_file_range Calls.sendmsg
    Calls.recvmsg Calls.send Calls.recv Calls.timeout Calls.accept Calls.async_cancel Calls.read
    Calls.write Calls.connect Calls.fallocate Calls.openat Calls.close Calls.send_zerocopy
calls_lem world r live callback state fd a b c w v room = (
  submit_lem world r live callback state (entry Opcode.nop 0 0 0 0 0) w v room,
  submit_lem world r live callback state (entry Opcode.readv fd c a b 0) w v room,
  submit_lem world r live callback state (entry Opcode.writev fd c a b 0) w v room,
  submit_lem world r live callback state (entry Opcode.fsync fd 0 0 0 0) w v room,
  submit_lem world r live callback state (entry Opcode.poll_add fd 0 0 0 a) w v room,
  submit_lem world r live callback state (entry Opcode.poll_add fd 0 0 1 a) w v room,
  submit_lem world r live callback state (entry Opcode.poll_remove 0 0 a 2 b) w v room,
  submit_lem world r live callback state (entry Opcode.poll_remove 0 0 a 0 0) w v room,
  submit_lem world r live callback state (entry Opcode.epoll_ctl a (sign_extend fd) c b 0) w v room,
  submit_lem world r live callback state (entry Opcode.sync_file_range fd a 0 (b % 2 ^ 32) c) w v
      room,
  submit_lem world r live callback state (entry Opcode.sendmsg fd 0 a 0 b) w v room,
  submit_lem world r live callback state (entry Opcode.recvmsg fd 0 a 0 b) w v room,
  submit_lem world r live callback state (entry Opcode.send fd 0 a (b % 2 ^ 32) c) w v room,
  submit_lem world r live callback state (entry Opcode.recv fd 0 a (b % 2 ^ 32) c) w v room,
  submit_lem world r live callback state (entry Opcode.timeout 0 (sign_extend b) a 1 c) w v room,
  submit_lem world r live callback state (entry Opcode.accept fd b a 0 c) w v room,
  submit_lem world r live callback state (entry Opcode.async_cancel 0 0 a 0 0) w v room,
  submit_lem world r live callback state (entry Opcode.read fd c a (b % 2 ^ 32) 0) w v room,
  submit_lem world r live callback state (entry Opcode.write fd c a (b % 2 ^ 32) 0) w v room,
  submit_lem world r live callback state (entry Opcode.connect fd b a 0 0) w v room,
  submit_lem world r live callback state (entry Opcode.fallocate fd b c a 0) w v room,
  submit_lem world r live callback state (entry Opcode.openat fd 0 a c b) w v room,
  submit_lem world r live callback state (entry Opcode.close fd 0 0 0 0) w v room,
  submit_lem world r live callback state (entry Opcode.send_zc fd 0 a (b % 2 ^ 32) c) w v room,
)
