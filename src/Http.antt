-- ===== src/Http.antt =====
-- src/reactor/http.c and http.h.
pub mod Numbers
pub mod Chunks
pub mod Fields
pub mod Requests
pub mod Responses
