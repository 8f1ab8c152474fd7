-- ===== src/Server/Loop.antt =====
-- src/lib.rs, `serve` as a function: what the server does at each event, by the branch that its
-- `select!` takes. A branch that is not ready changes nothing.
pub mod Covers
pub mod Stages
pub mod Polls
pub mod Reaching
pub mod Keeps
pub mod Runs
pub mod Handshakes
pub mod Gone
use sui_http.Prelude.{
  ℕ, Option, none, some, List, [], ◌∷◌, Result, Poll, Run, done, panic, if◌then◌else◌,
}
use sui_http.Connection.Info.{ConnectionId}
use sui_http.Connection.Registry.{keys, Absent}
use sui_http.Server
use sui_http.Server.{Server, Phase, serving, aborting, draining, forcing, stopped, crashed}
use sui_http.Server.Tasks.{
  Handshake, spawned, handshaking, shaken, Handler, in_progress, ended, take_at,
}
use sui_http.Server.Drain.{poll_shutdown}

-- The token is cancelled; the listener accepts; a handshake, a handler is joined. With the id of
-- the data of a new connection, the time, and the place of the task.
pub data Branch (A I : Type 0) : Type 0 where
  token_cancelled : Branch A I
  accept : ConnectionId → ℕ → I → A → Branch A I
  join_pending : ConnectionId → ℕ → ℕ → Branch A I
  join_handler : ℕ → Branch A I

-- What happens to a server: its loop takes a branch, its wait in `shutdown` is polled, one of its
-- tasks goes on, or a handle is called.
pub data Event (A I S E : Type 0) : Type 0 where
  selects : Branch A I → Event A I S E
  wakes : ℕ → Event A I S E
  shakes : ℕ → ℕ → Poll (Run (Result S E)) → Event A I S E
  handler_ends : ConnectionId → Run (Unit {0}) → Event A I S E
  triggers : Event A I S E
  closes : ConnectionId → Event A I S E

module _ {A I S Certs E : Type 0} (peer_certificates : S → Option Certs) where
  unfoldable pub on_pending :
      ConnectionId
      → ℕ
      → Option (Handshake A I S E × List (Handshake A I S E))
      → Server A I S Certs E
      → Server A I S Certs E
  on_pending id now none s = s
  on_pending id now (some (spawned stream remote_addr timeout, rest)) s = s
  on_pending id now (some (handshaking stream remote_addr deadline, rest)) s = s
  on_pending id now (some (shaken remote_addr (done r), rest)) s =
      Server.on_handshake peer_certificates id now remote_addr r rest s
  on_pending id now (some (shaken remote_addr panic, rest)) s = Server.unwind s

  unfoldable pub on_joined :
      Option (Handler A Certs × List (Handler A Certs))
      → Server A I S Certs E
      → Server A I S Certs E
  on_joined none s = s
  on_joined (some (in_progress w, rest)) s = s
  on_joined (some (ended r, rest)) s = Server.on_handler r rest s

  unfoldable pub select : Branch A I → Server A I S Certs E → Server A I S Certs E
  unfolding on_pending on_joined
  select token_cancelled s = if s.cancelled then Server.begin_shutdown s else s
  select (accept id now stream remote_addr) s =
      Server.handle_incomming peer_certificates id now stream remote_addr s
  select (join_pending id now k) s = on_pending id now (take_at k s.pending_connections) s
  select (join_handler k) s = on_joined (take_at k s.connection_handlers) s

  -- The loop is left when the phase is.
  unfoldable pub select_in : Phase → Branch A I → Server A I S Certs E → Server A I S Certs E
  unfolding select
  select_in serving b s = select b s
  select_in aborting b s = s
  select_in forcing b s = s
  select_in (draining deadline) b s = s
  select_in stopped b s = s
  select_in crashed b s = s

  unfoldable pub act : Event A I S E → Server A I S Certs E → Server A I S Certs E
  unfolding select_in
  act (selects b) s = select_in s.phase b s
  act (wakes now) s = poll_shutdown now s
  act (shakes k now p) s = Server.shake k now p s
  act (handler_ends id r) s = Server.end_handler id r s
  act triggers s = Server.trigger_shutdown s
  act (closes id) s = Server.close_connection id s

  unfoldable pub run : List (Event A I S E) → Server A I S Certs E → Server A I S Certs E
  unfolding act
  run [] s = s
  run (e ∷ es) s = run es (act e s)

-- Data that is just allocated is not that of a listed connection.
abbrev pub IsFresh : {A I S Certs E : Type 0} → Event A I S E → Server A I S Certs E → Type 0
IsFresh (selects (accept id now stream remote_addr)) s = Absent id (keys s.connections)
IsFresh (selects (join_pending id now k)) s = Absent id (keys s.connections)
IsFresh _ s = Unit
