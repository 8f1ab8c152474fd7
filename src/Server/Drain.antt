-- ===== src/Server/Drain.antt =====
-- src/lib.rs, `shutdown`: its waits for its tasks, woken again and again.
pub mod Ways
pub mod Ends
pub mod Grace
use sui_http.Prelude.{ℕ, ◌+◌, leb, List, [], ◌∷◌, is_empty, Run, if◌then◌else◌}
use sui_http.Connection.Info.{ConnectionId}
use sui_http.Server
use sui_http.Server.{
  Server, Phase, serving, aborting, draining, forcing, stopped, crashed,
  connection_shutdown_grace_period,
}
use sui_http.Server.Tasks.{Handshake, spawned, handshaking, shaken, Handler, in_progress, ended}

-- A poll of the loop `graceful_shutdown` takes each handler that is over.
unfoldable pub unjoined : {A Certs : Type 0} → List (Handler A Certs) → List (Handler A Certs)
unjoined [] = []
unjoined (in_progress w ∷ hs) = in_progress w ∷ unjoined hs
unjoined (ended r ∷ hs) = unjoined hs

-- A poll of `pending_connections.shutdown()` takes each handshake that is over.
unfoldable pub unreaped : {A I S E : Type 0} → List (Handshake A I S E) → List (Handshake A I S E)
unreaped [] = []
unreaped (spawned stream remote_addr timeout ∷ hs) =
    spawned stream remote_addr timeout ∷ unreaped hs
unreaped (handshaking stream remote_addr deadline ∷ hs) =
    handshaking stream remote_addr deadline ∷ unreaped hs
unreaped (shaken remote_addr r ∷ hs) = unreaped hs

-- What happens while the server waits: a handler ends, or the server is polled at a time.
pub data Event : Type 0 where
  handler_ends : ConnectionId → Run (Unit {0}) → Event
  wakes : ℕ → Event

module _ {A I S Certs E : Type 0} where
  -- `timeout(CONNECTION_SHUTDOWN_GRACE_PERIOD, graceful_shutdown)`: first the loop, then the time.
  unfoldable pub graceful_shutdown : ℕ → ℕ → Server A I S Certs E → Server A I S Certs E
  unfolding unjoined
  graceful_shutdown deadline now s =
      let s' = Server.join (unjoined s.connection_handlers) s in
      if is_empty s'.connection_handlers
      then Server.finish_shutdown s'
      else if leb deadline now
      then Server.force_shutdown s'
      else s'

  -- `pending_connections.shutdown()`, and what follows it in the same poll.
  unfoldable pub abort_handshakes : ℕ → Server A I S Certs E → Server A I S Certs E
  unfolding unreaped graceful_shutdown
  abort_handshakes now s =
      let s' = Server.reap (unreaped s.pending_connections) s in
      if is_empty s'.pending_connections
      then graceful_shutdown (now + connection_shutdown_grace_period) now
          (Server.start_grace now s')
      else s'

  -- `connection_handlers.shutdown()`.
  unfoldable pub abort_handlers : Server A I S Certs E → Server A I S Certs E
  unfolding unjoined
  abort_handlers s =
      let s' = Server.join (unjoined s.connection_handlers) s in
      if is_empty s'.connection_handlers then Server.finish_shutdown s' else s'

  unfoldable pub poll_in : Phase → ℕ → Server A I S Certs E → Server A I S Certs E
  unfolding graceful_shutdown abort_handshakes abort_handlers
  poll_in serving now s = s
  poll_in aborting now s = abort_handshakes now s
  poll_in forcing now s = abort_handlers s
  poll_in (draining deadline) now s = graceful_shutdown deadline now s
  poll_in stopped now s = s
  poll_in crashed now s = s

  -- A poll of `shutdown`, where the server is in it.
  unfoldable pub poll_shutdown : ℕ → Server A I S Certs E → Server A I S Certs E
  unfolding poll_in
  poll_shutdown now s = poll_in s.phase now s

  unfoldable pub happen : Event → Server A I S Certs E → Server A I S Certs E
  unfolding poll_shutdown
  happen (handler_ends id r) s = Server.end_handler id r s
  happen (wakes now) s = poll_shutdown now s

  unfoldable pub drain : List Event → Server A I S Certs E → Server A I S Certs E
  unfolding happen
  drain [] s = s
  drain (e ∷ es) s = drain es (happen e s)
