-- ===== src/Lib.antt =====
-- ferroq, a gateway between bot frameworks and chat backends, in Rust. Backend adapters push
-- events through a filter of repetitions and the counters onto an event bus, and API requests go
-- through a router to the adapter of their account. A management API reloads the configuration and
-- adds, removes and reconnects adapters while the gateway runs.
--
-- Which file models which part:
--   Prelude             shared types: tests, lists, machine integers, hash maps, printing
--   Core                crates/ferroq-core/src: errors, requests, messages, events, the adapter
--                       trait, the configuration; Core/Validation is validation.rs
--   Dedup               crates/ferroq-gateway/src/dedup.rs: `DedupFilter`; `check` is the body of
--                       `is_duplicate` behind the fingerprint, Dedup/Fingerprint is `fingerprint`
--   Middleware          crates/ferroq-gateway/src/middleware.rs and shared_config.rs: `check_token`
--                       in Middleware/Auth, `RateLimiter` in Middleware/RateLimiter
--   Failover            crates/ferroq-gateway/src/adapter/failover.rs: `FailoverAdapter`
--   Official            crates/ferroq-gateway/src/adapter/official.rs: `OfficialAdapter`
--   Lagrange            crates/ferroq-gateway/src/adapter/lagrange.rs: `LagrangeAdapter`; its calls in
--                       Lagrange/Call, its reader task in Lagrange/Reader, and the turns that callers,
--                       tasks and backend take in Lagrange/Steps
--   Router              crates/ferroq-gateway/src/router.rs: `ApiRouter`
--   Stats               crates/ferroq-gateway/src/stats.rs: `RuntimeStats`
--   Forward             crates/ferroq-gateway/src/forward.rs and bus.rs: `forward_events`, `EventBus`
--   AdapterManager      crates/ferroq-gateway/src/adapter_manager.rs
--   Management          crates/ferroq-gateway/src/management.rs: `handle_reload`, `handle_config`;
--                       the other handlers in Management/Accounts
--   Runtime             crates/ferroq-gateway/src/runtime.rs: the loop of `start`, the stats refresher,
--                       the task that stores messages in Runtime/Persist
--   OnebotV11           crates/ferroq-gateway/src/onebot_v11.rs: `parse_event` and what it calls;
--                       `event_to_json` in OnebotV11/Output
--   OnebotV12           crates/ferroq-gateway/src/onebot_v12.rs: `event_to_json` is `event_to_v12`,
--                       requests and answers
--   Storage             crates/ferroq-gateway/src/storage.rs: the statements of `MessageStore`
--   Plugins             crates/ferroq-gateway/src/plugin_engine.rs: `PluginEngine`; the host functions of a
--                       plugin in Plugins/Abi
--   Server              crates/ferroq-gateway/src/server/onebot_v11.rs: the token check and the HTTP handlers;
--                       Server/Connection is `handle_ws_connection`, Server/Reverse the loop of
--                       `reverse_ws_task` and `http_post_task`; Server/OnebotV12 is
--                       server/onebot_v12.rs, and Server/Satori is server/satori.rs
--   Satori              crates/ferroq-gateway/src/satori.rs: escaping in Satori/Escape, message
--                       elements in Satori/Elements, events in Satori/Events, requests and answers
--                       in Satori/Api
--   Tuning              crates/ferroq-gateway/src/tuning.rs
--   Tests               concrete runs
--
-- How the program is written here. A method on `&self` with locks or atomics is a function from
-- the old state to the new one, since each holds its locks from its first read to its last write;
-- what may run in between elsewhere is a list of steps or a step relation. The operations of the
-- adapter manager await in between and are taken one after the other; AdapterManager/Race and
-- Router/Stale are about two places where something else comes in between. The Lagrange adapter and a
-- WebSocket connection are sets of tasks: each stretch between two awaits is a function, and the
-- relations `Step` and `Run` say in which order they may be taken. An adapter is a record of
-- its methods over a type of worlds, which stands for all that an adapter changes behind its
-- interface. Times are nanoseconds since a fixed instant. Numbers are unbounded with the wrap-around
-- of the source written out: the counters wrap at 2^64 and the refill of the bucket saturates at
-- 2^32 - 1; the counter of echoes wraps at 2^64. No function runs on fuel but the printing of
-- numbers, which has more rounds than the number has digits.
--
-- Parameters: JSON values, times and UUIDs (`External`), the methods of a JSON value (`JsonValue`)
-- and what builds one (`JsonBuild`, with what reading gives back), the standard library's hasher
-- (`Hasher`, of which only the range of its result is assumed), the HTTP client (`Client`), the
-- JSON of requests (`Writer`), of messages (`Source`) and of the values of plugins (`Codec`), the
-- exports of a plugin (`Instance`), the request of a WebSocket (`Handshake`), the signature of a
-- post, SQLite (`Database`), reading a file, parsing YAML, the bytes of a text, the constructors of
-- the two kinds of adapter, and the order of iteration of a hash map, which is that of an
-- association list.
--
-- Not modelled: HTTP, WebSockets, SQLite and wasmtime, which stand behind the parameters; the
-- WebSocket connection of the OneBot v12 server, which is as that of OneBot v11; what happens on a
-- reverse connection, which is as on a forward one; a writer of a connection whose send fails; the
-- timer of the clean-up and the accessors of the runtime, the command line and the dashboard.
pub mod Prelude
pub mod Core
pub mod Dedup
pub mod Middleware
pub mod Failover
pub mod Router
pub mod Stats
pub mod Storage
pub mod Forward
pub mod AdapterManager
pub mod Management
pub mod OnebotV11
pub mod OnebotV12
pub mod Official
pub mod Lagrange
pub mod Plugins
pub mod Satori
pub mod Server
pub mod Tuning
pub mod Runtime
mod Tests
