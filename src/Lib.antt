-- ===== src/Lib.antt =====
-- Jaiba, a data flow engine: a flow is a graph of processors that exchange packets through bounded
-- queues. This library models the core of the engine and states how it behaves.
--
-- The manifest of a flow is checked and ordered by the flow graph. The executor runs each packet
-- through its processor under the retry loop, which asks the memory limiter for room; processors
-- that call out pass through the circuit breakers. The scheduler decides which of the pending packets
-- start, within the limits on concurrency, order and partitions, and the router puts what processors
-- emit into the queues of the connections. The flow control says whether it may start any at all.
-- Beside the engine stand the hot tier of the memory in which a flow keeps objects of its domain, and
-- the builder with which the server turns the queries of its users into SQL.
--
--   Prelude   tests, lists, hash maps and saturating words that the others share
--   Json      `serde_json::Value`
--   Config    crates/jaiba-core/src/config/flow.rs: the records and enums of the manifest that the
--             core reads
--   Error     crates/jaiba-runtime/src/error.rs: FlowError and is_retryable
--   Packet    crates/jaiba-runtime/src/engine/packet.rs and schema.rs: packets and their size estimate
--   Graph     crates/jaiba-core/src/graph.rs: FlowGraph::build. `build` takes the order in which the
--             hash map is visited as an argument; its loop has one round of fuel per processor, which
--             is enough, since each round puts a processor in the order
--   Retry     crates/jaiba-runtime/src/engine/executor/retry.rs: execute_with_retry, on what the
--             processor, the limiter, the clock and the emission of a failed packet answer (`World`),
--             with its effects as a list, an emission that fails included. Its
--             fuel is the attempts that are left and one more, which is enough
--   Circuit   crates/jaiba-runtime/src/engine/circuit.rs: permit, success, failure and open_count on
--             the circuits of a process, the time in nanoseconds as an argument
--   Limiter   crates/jaiba-runtime/src/engine/memory.rs: all limiters and reservations of the process
--             as one state. `reserve` waits, so it is a request and later grants, each a step;
--             a sequence of steps is any interleaving of flows
--   Executor  crates/jaiba-runtime/src/engine/executor/: the work items (mod.rs), and in its children
--             the partition keys (partition.rs), the scheduler (scheduler.rs), the router
--             (routing.rs), which reserves room in the Limiter's state, and the loop over them
--             (Engine, mod.rs): a turn, and the event that `tokio::select!` takes, as the steps of
--             the relation `Reaches`. The fuel of a scheduling round (`turns`) is enough to postpone
--             every pending item once before each item that leaves the queue.
--             Validation (validation.rs) has the downstream depths and the checks of `validate`; the
--             recursion of the depths has two rounds of fuel more than processors, which is enough for
--             a graph that `build` accepts, where each level climbs
--   Control   crates/jaiba-runtime/src/engine/control.rs: the lifecycle of an execution, under the
--             engine's calls and the operator's commands. The test of a command and the two writes of
--             a call are steps of their own, and the calls in flight take them in any order
--   Memory    crates/jaiba-memory/src/: the hot tier (Hot, hot.rs), its two-phase upsert, lookups,
--             expiry and eviction. The search for victims has one round of fuel per entry and one more,
--             which is enough, since each round selects another entry. Durations is duration.rs, the
--             parser of a policy's times
--   Texts     texts as lists of code points, and the string functions that are used on them
--   Sql       crates/jaiba-server/src/sql_builder.rs, with the query records of
--             crates/jaiba-plugin-sdk/src/lib.rs (Spec): from a neutral query to a statement and the
--             values it binds. Printing a number takes as much fuel as the number, which is more than
--             its digits
--
-- A machine integer is a plain number. Where the source saturates, the model does; elsewhere the
-- model states the range a property needs. A hash map is an association list with a key once. A
-- tokio semaphore is the number of its permits that are not handed out. While a call waits at it, no
-- attempt succeeds; the order in which it serves those that wait is left open.
--
-- Not modelled: file, network and database I/O, log lines, metrics that nothing reads, serde and YAML
-- parsing, the interpolation of parameters and environment variables, the other tiers of the memory,
-- the connectors, the processors, the HTTP server and the user interface.
pub mod Prelude
pub mod Json
pub mod Config
pub mod Error
pub mod Packet
pub mod Graph
pub mod Retry
pub mod Circuit
pub mod Limiter
pub mod Executor
pub mod Control
pub mod Memory
pub mod Texts
pub mod Sql
