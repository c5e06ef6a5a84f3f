-- ===== src/Reactor.antt =====
-- src/reactor/reactor.c: the ring of calls shared with the kernel, the calls, and the event loop.
pub mod Rings
pub mod State
pub mod Calls
pub mod Loop
