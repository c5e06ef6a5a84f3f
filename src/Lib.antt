-- ===== src/Lib.antt =====
-- The data structures, the text functions and the hash tables of libreactor.
--
-- The program is a C library. Its lower half are containers and text functions without input and
-- output; on them stand an event loop (src/reactor/reactor.c), streams, an HTTP server and JSON. This
-- development is about the lower half, the HTTP messages and the event loop:
--
--   file            code                            what it holds
--   Data            src/reactor/data.c, data.h      slices of memory
--   Buffer          src/reactor/buffer.c, buffer.h  growing byte arrays over slices
--   Roundup         buffer_roundup, map_roundup     the bits that `s |= s >> 1 ...` fills
--   Strings         src/reactor/string.c, string.h  NUL-terminated texts
--   Strings/Utf8    src/reactor/string.c            UTF-8 and the escapes \uXXXX
--   Strings/Json    src/reactor/string.c            string_utf8_encode and string_utf8_decode
--   Hash            src/reactor/hash.c              the hash of slices and of integers
--   Map             src/reactor/map.c, map.h        a table with open addressing over callbacks
--   Mapi            src/reactor/mapi.c, mapi.h      the map from integers, a client of Map and Hash
--   Http            src/reactor/http.c, http.h      chunked bodies, requests and responses
--   Vector          src/reactor/vector.c, vector.h  arrays of objects in a buffer
--   Values          src/reactor/value.c             JSON values
--   Values/Encode   src/reactor/encode.c            the state machine that prints them
--   Pools           src/reactor/pool.c, pool.h      objects of one size from chunks
--   Queues          src/reactor/queue.c             the producer of a queue
--   Reactor         src/reactor/reactor.c, .h       the ring of calls, the calls, the event loop
--   Prelude         what they share: tests, lists, bits, words, memory
--   Tests           runs at concrete inputs
--
-- A definition has the name of the C function without the prefix of its file: `Buffer.insert` is
-- buffer_insert. A struct is a record with the struct's fields, and a function that changes it
-- returns the changed record. The parts meet where the C files do: Buffer keeps a `Data`, Vector keeps
-- a `Buffer`, Strings/Json calls Strings/Utf8, Mapi fills the interface `Callbacks` of Map/Interface
-- with the hash of Hash.
--
-- Memory. A pointer is `none` for NULL, and else the bytes from where it points to the end of its
-- object (Prelude/Memory). A read or a write outside the object is the fault `none` of `Option`, so a
-- theorem that a function returns `some` says that it stays inside. What fresh memory holds is left
-- open by the record `Allocator`, whose laws are those of malloc and realloc. Allocation succeeds, as
-- the code assumes, and nothing is given back: the functions that only free are left out. A file is
-- the sequence of its bytes, which the calls of fread give without an error.
--
-- Texts. NUL-terminated texts are given with their NUL. The functions of string.c that append to a
-- buffer take and give the list of its bytes, which `Buffer.append` keeps by its theorems.
--
-- Integers. `size_t` and `uint64_t` are natural numbers below 2 ^ 64, and every sum, difference and
-- product is taken modulo 2 ^ 64 (Prelude/Words), unless a theorem's condition excludes the overflow.
-- The size of a chunk of a pool is written without the modulus: it is the size of a block of memory
-- that was allocated. An `int` that becomes a `uint64_t` is extended by its sign (Rings.sign_extend).
--
-- Loops on fuel. `Map.at` may try one place more than the table has; a table with a vacant place meets
-- it before. `Map.insert` may rehash once: the insertions of a rehash have room and do not rehash
-- again. The rounds of the UTF-8 encoder and decoder are bounded by the length of the text, of which
-- each round takes at least one byte. The rounds of the hash are bounded by the length of the slice.
-- When the fuel runs out, a definition gives `none`.
--
-- `Http.Numbers.u32_sprint` takes two digits a round, and 16 rounds are more than 32 bits need; a
-- round over chunked data takes at least one byte of it.
--
-- HTTP. The parser phr_parse_request is the code of another project and a parameter: a function from
-- the input to its result, its slices and its fields, which are assumed to lie where it says (IsParse).
-- `stream_read` and `stream_consume` are the input of `read_request` and the number of bytes that a
-- result says are consumed; `http_write_response` writes to the stream's buffer `output_waiting`.
--
-- The event loop. The kernel is a parameter: what io_uring_enter leaves in the memory that it shares
-- and returns; a theorem assumes that it takes all entries it is told of (IsKernel). The users of a
-- reactor are in a pool, whose addresses are numbers; what they hold is a function of the address.
-- Callbacks are a parameter that takes and returns the reactor, or a fault;
-- Reactor/Loop/Drained says which entries are handled when they return, and what each of them does. The loops over users and over
-- completed entries are on fuel, since a callback may add to them.
--
-- A producer's buffers are lists of bytes, and the call that writes is the slice that it was given.
--
-- Values. A JSON value is its tree; a number is a token, whose text by snprintf is a parameter, as is
-- qsort, which gives keys that it was given. The stack of the state machine is a list with its back in
-- front. Its rounds are on fuel, and enough fuel is proved to exist.
--
-- The callbacks of a table are pure functions of the elements; what `release` receives is a result.
--
-- Not modelled: the containers list, maps and mapd, the changes of JSON values and their parser, the
-- consumer of a queue, the set-up of the ring and the calls on other threads, and what does input and
-- output over the loop (streams, servers, timeouts, signals, files). The HTTP parser under
-- src/picohttpparser is the code of another project.
pub mod Prelude
pub mod Roundup
pub mod Data
pub mod Buffer
pub mod Strings
pub mod Map
mod Tests
pub mod Hash
pub mod Mapi
pub mod Vector
pub mod Http
pub mod Pools
pub mod Reactor
pub mod Values
pub mod Queues
