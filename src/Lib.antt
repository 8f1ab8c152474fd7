-- ===== src/Lib.antt =====
-- sui-http: an HTTP server over hyper, with TLS, graceful shutdown and tower middleware.
--
-- The program's parts and how they interact. A server (`src/lib.rs`) accepts connections from a
-- listener (`src/listener.rs`), runs a TLS handshake on each where it has a TLS configuration,
-- and spawns a handler per connection (`src/connection_handler.rs`), which drives hyper's
-- connection until it resolves or is cut off. The connections that are open stand in a map
-- (`src/connection_info.rs`) that a `ServerHandle` reads; the handler's guard takes its entry
-- out. The configuration (`src/config.rs`) gives the limits. Two middlewares wrap a service: one
-- bounds the time to a response (`src/middleware/grpc_timeout.rs`), one tells handlers what
-- passes through (`src/middleware/callback`).
--
-- Which file models which part:
--
-- - Prelude: shared types and lemmas. Prelude/Rust has `Result`, `Poll`, `Duration` (in
--   nanoseconds) and `Run`, a value or a panic; Prelude/Str the byte strings and
--   `u64::from_str`; Prelude/Polls a future that is polled again and again; Prelude/Http the
--   header map of the `http` crate, a parameter.
-- - Config: `Config` and its default. Config/Setters: its setters. Config/Settings: chains of
--   their calls, and the fields that they write. Config/Builder: `connection_builder`, as the
--   calls on hyper-util's builder. Config/Alpn: the ALPN protocols of `serve_with_listener`.
-- - Fuse: `src/fuse.rs`.
-- - BoxBody: `src/body.rs`.
-- - GrpcTimeout: `try_parse_grpc_timeout` (Parse), `GrpcTimeout::call` (Service),
--   `ResponseFuture::poll` (Future), `MaybeEmptyBody` (Body). Parse/Grammar describes the
--   accepted values without the parser, and Parse/Print prints them. Deadline puts call and
--   polls together, with a clock.
-- - Callback: the handlers' traits (Handler), the bodies (Body for `RequestBody`, Response for
--   `ResponseBody`), the future (Future), the service and the layer (Service). Calls has the
--   calls of a handler as data.
-- - Listener: the trait (Trait), the accept loop of `TcpListener` with `AcceptBackoff`
--   (Backoff), `TcpListenerWithOptions` (Tcp), `TapIo` (Tap).
-- - Connection: `sleep_or_pending` (Sleep), `drive_connection` (Drive), the same over a
--   connection with a state, the trait `GracefulConnection` (Graceful), `serve_connection`
--   (Serve), `ConnectionInfo` (Info), `ActiveConnections` and `OnConnectionClose` (Registry).
-- - Server: the state of `Server` and the function of each branch of `serve`, of `shutdown` and
--   of the handle (Server), the stream of `src/io.rs` (Io), the tasks of the two `JoinSet`s
--   (Tasks), the step relation (Steps), `serve` as a function of events (Loop), what becomes of
--   a handshake, how far a shutdown is and when it ends (Loop/Handshakes, Loop/Keeps,
--   Loop/Runs), the extensions of a request (Requests), the task of a connection (Closing), the
--   waits of `shutdown` polled again and again (Drain), the futures of the handle (Handle),
--   `Builder` with `serve` and `serve_with_listener` (Build). Spec is what a server promises of
--   its connections, without its tasks, for each label of a step. `Server.start` is the server
--   that `serve_with_listener` spawns; `handle_incomming`, `handle_connection`,
--   `begin_shutdown`, `reap`, `start_grace`, `join`, `force_shutdown` and `finish_shutdown`
--   follow `handle_incomming`, `handle_connection` and `shutdown`: it aborts the handshakes and
--   awaits them, awaits the handlers for the grace period, aborts those that are left and awaits
--   them.
-- - System: the server with the tasks of its connections, which run beside its loop: a poll of a
--   task sees the token that the handle, or the end of the loop, cancels, and its end takes the
--   connection out of `connections` (System); the steps that the server takes in it (Runs); what
--   a task is left in, whatever else happens (Known, Polls, Everyone); that who is asked to shut
--   down stays asked (Asks); when a connection leaves the server (Removes).
-- - Stacked: the callback middleware around the gRPC timeout around an inner service.
-- - Tests: runs at concrete inputs.
--
-- How it is modelled. What a mutable object becomes is returned beside the result. The inner
-- services, bodies and futures of the middlewares, hyper's connection, sockets, the clock and
-- the TLS sessions are parameters or are given by the environment's steps. `select!` polls its
-- branches in a cyclic order from an arbitrary one on: a wake-up of `drive_connection` carries
-- that choice for each round, and a step of the server is any branch that may be taken. In
-- System a poll of a task is one happening: whatever else happens comes before or after it, so
-- that within a poll the token does not change. An aborted task ends at an event of its own,
-- when the runtime has dropped it: until then its handshake is pending, or its connection is
-- listed, and the shutdown waits; that it comes to an end at all is tokio's promise, and a
-- hypothesis where it is needed. The timeout of a handshake counts from the first poll of its
-- task. The id of a connection is the address of its data, so a step that makes a connection
-- gives it an id that no listed connection has. Numbers are unbounded except where the source's
-- width matters: the products of `u64` in the parser are modulo 2^64, and `Duration * u32`
-- panics past `Duration::MAX`.
--
-- Bounds. Within one wake-up the loop of `drive_connection` runs on fuel 3: each further round
-- uses up the signal or begins the grace period, so that no wake-up needs more than three rounds
-- (Connection/Drive/Rounds).
--
-- Not modelled: `Debug` output and logging, and the references that getters hand out. rustls and
-- its PEM loaders, `Any` with the types' ids, http-body-util's conversion of a body, and tokio's
-- `sleep` are parameters; of `sleep` it is asked that no poll before its deadline finds it
-- elapsed, and that each poll does that comes later than the deadline by the timer's
-- granularity, a parameter. The timers of the connection driver, of the handshakes and of the
-- shutdown have elapsed at a poll exactly from their deadline on.
pub mod Prelude
pub mod Config
pub mod Fuse
pub mod GrpcTimeout
pub mod Callback
pub mod Listener
pub mod Connection
pub mod Server
pub mod System
pub mod Stacked
pub mod BoxBody
pub mod Tests
