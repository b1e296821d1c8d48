-- ===== src/Lib.antt =====
-- Verification of the C client library of the 1756-CMEE1Y1 module (c/src, c/include/bpclient.h).
--
-- The library talks to the module's server, bpServer, through a shared memory of 16 slots. Every
-- service is one call of the slot dispatcher, bp_client_call: it reserves a slot, writes a header and
-- a payload, wakes the server, waits for its answer, reads the reply and frees the slot. CIP messages,
-- connections, pools of connections and tag access are built upon that call.
--
-- The parts, and where they are modelled:
--   * Base and its children: numbers, Booleans, lists, C's signed integers and results;
--   * Memory: bytes in memory, bp_ld_* and bp_st_* (c/src/proto.h), memcpy and memset;
--   * State: the structs of c/src/proto.h as records, the environment, and chains of calls;
--   * Call: bp_client_call and its helpers (c/src/client.c). Call/Slots is about the reservation,
--     Call/Request about the header, Call/Outcome and Call/Remote about the result, Call/Reply about
--     what is read;
--   * Cip: bp_record_cip_error and bp_client_last_cip_error (c/src/client.c);
--   * Message: bp_client_message_send (c/src/message.c);
--   * Conn: the connection table and the functions of c/src/conn.c. Conn/Wire has the bytes of the
--     requests, Conn/Table the table as a map, Conn/Frame what a call leaves alone;
--   * Route: bp_build_unconnected_send and bp_route_append_port (c/src/route.c);
--   * Pool: the critical sections of c/src/pool.c; Pool/Threads interleaves them as a step
--     relation, from an open pool to the end of the drain of its closing, with Owned and Draining on
--     its end; Pool/Lifecycle opens a pool (its entries in Filled, its connections in Opening, both in
--     Transaction), Pool/Closing closes one, and Pool/Batch runs a batch, whose
--     workers are steps too. Pool/Borrow and Pool/Keepalive run one thread with its requests;
--   * Tags: batches of tag requests (c/src/access.c, c/src/accessdb.c). Tags/Batch is about their loops,
--     Tags/Access and Tags/AccessDb about the two layouts, Tags/Values about single values, arrays and
--     strings (c/src/access.c), Tags/Symbols about tag databases (c/src/tagdb.c), Tags/Cache about the
--     symbol caches and Tags/Walk about lookups in them (c/src/tagcache.c), Tags/Scalars about typed
--     values and Tags/Multi about batches of them (c/src/multitag.c);
--   * Services: the single calls. Services/Clock is c/src/wctime.c, Services/Identity c/src/identity.c,
--     Services/Panel c/src/module.c, Services/Paths c/src/path.c, Services/Texts c/src/errors.c;
--   * Structs: whole structures, by one message each (c/src/struct.c). Structs/Written reads back one
--     that was written;
--   * Session: closing a client, and Session/Start: opening and reconnecting one (c/src/client.c), upon
--     Pool/Closing and the calls of the operating system, which are the record Session.Start.Os;
--   * Tests: a concrete server and client, on which the theorems are run.
--
-- Correspondence. A function keeps its C name. A static function's pieces that run under one lock, or
-- after one guard, are functions of their own, named for what they do. A pointer that may be NULL is
-- an Option; the pointer to the client itself is never NULL here. An `int` result with out pointers is
-- a Result. A client's operation is a function from a client to the client afterwards and a Result
-- (State.M). Machine integers are natural numbers, and what wraps in C is written with `%`.
--
-- Bounds. Loops run over lists, or count down the number of entries that C's loop has left, so they
-- need no fuel; the polling loop runs over the memories that the environment shows it, one at least.
-- The loops of a lookup and of a preload stop when the cache knows all symbols or no call succeeds any
-- more; they have as fuel one turn more than the table has symbols, which Tags/Walk/Runs is about. A
-- run that the fuel cut off would return Code.no_return, which is no C int.
--
-- Parameters. bpServer, the semaphores' outcomes, clocks, rand, allocation and thread creation are
-- fields of State.Env, and theorems hold for all of them; `Locks` says that the semaphore of the
-- shared memory can be taken.
--
-- Not modelled: output to stderr, the keepalive thread's wait between two turns (its deadline is
-- in Pool/Deadline), the 50 ms sleep of a reconnect, other threads during a lookup of a symbol (it releases
-- the caches' lock while it asks the server), a close that calls the server through a null pointer (it
-- has no result; see Session), the other languages' clients (go, python), and the example programs.
pub mod Base
pub mod Memory
pub mod State
pub mod Call
pub mod Message
pub mod Cip
pub mod Conn
pub mod Route
pub mod Pool
pub mod Tags
pub mod Services
pub mod Structs
pub mod Session
pub mod Tests
