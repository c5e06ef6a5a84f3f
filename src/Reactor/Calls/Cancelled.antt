-- ===== src/Reactor/Calls/Cancelled.antt =====
-- What `reactor_cancel` of src/reactor/reactor.c does to a call of the kernel.
use libreactorng.Reactor.State
use libreactorng.Reactor.State.{Reactor, User}
use libreactorng.Reactor.Calls
