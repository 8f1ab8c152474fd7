-- ===== src/Server.antt =====
-- src/lib.rs, `Server` and `ServerHandle`: the state of the accept loop, the function of each of
-- its branches, and its way through a shutdown. The tasks of a `JoinSet` are a list.
pub mod Io
pub mod Tasks
pub mod Steps
pub mod Incoming
pub mod Tracked
pub mod Pending
pub mod Stopped
pub mod Requests
pub mod Build
pub mod Spec
pub mod Drain
pub mod Tokens
pub mod Configured
pub mod Closing
pub mod Handle
pub mod Loop
use sui_http.Prelude.{
  ℕ, suc, ◌+◌, leb, Bool, true, false, not, Option, none, some, List, [], ◌∷◌, length, Result, ok,
  err, Run, done, panic, Poll, from_secs, Duration, map, ◌==◌, if◌then◌else◌,
}
use sui_http.Config.{Config}
use sui_http.Config.Builder.{Call, connection_builder}
use sui_http.Connection.Info
use sui_http.Connection.Info.{ConnectionId, ConnectionInfo, ConnectInfo}
use sui_http.Connection.Registry
use sui_http.Connection.Registry.{OnConnectionClose}
use sui_http.Server.Io.{ServerIo, io, tls_io, peer_certs}
use sui_http.Server.Tasks.{
  Handshake, spawned, HandshakeError, Handler, in_progress, Work, finish, update_at, poll_handshake,
}

-- Where `serve` stands: in its loop, in `shutdown`, returned, or unwinding from a panic.
pub data Phase : Type 0 where
  serving : Phase
  -- The handshakes are aborted, and waited for.
  aborting : Phase
  -- With the time at which the grace period for the handlers is over.
  draining : ℕ → Phase
  -- The handlers are aborted, and waited for.
  forcing : Phase
  stopped crashed : Phase

pub record Server (A I S Certs E : Type 0) : Type 0 where
  pub config : Config
  pub tls : Bool
  pub local_addr : A
  pub pending_connections : List (Handshake A I S E)
  pub connection_handlers : List (Handler A Certs)
  pub connections : List (ConnectionId × ConnectionInfo A Certs)
  pub cancelled : Bool
  pub phase : Phase

abbrev pub connection_shutdown_grace_period : Duration
connection_shutdown_grace_period = from_secs 1

-- `ConnectionInfo::close` on the entry of `connections` for `id`.
unfoldable pub close_at :
    {A Certs : Type 0}
    → ConnectionId
    → List (ConnectionId × ConnectionInfo A Certs)
    → List (ConnectionId × ConnectionInfo A Certs)
close_at id [] = []
close_at id ((k, c) ∷ m) = (k, if k == id then Info.close c else c) ∷ close_at id m

module _ {A I S Certs E : Type 0} where
  -- `serve_with_listener`, where the listener's `local_addr` succeeded.
  unfoldable pub start : Config → Bool → A → Server A I S Certs E
  start config tls local_addr = record {
    config = config;
    tls = tls;
    local_addr = local_addr;
    pending_connections = [];
    connection_handlers = [];
    connections = [];
    cancelled = false;
    phase = serving;
  }

  -- `peer_certificates` reads the session of a TLS stream; `id` is the address of the new
  -- connection's data.
  unfoldable pub handle_connection :
      (S → Option Certs)
      → ConnectionId
      → ℕ
      → ServerIo I S
      → A
      → Server A I S Certs E
      → Server A I S Certs E
  unfolding Registry.insert
  handle_connection peer_certificates id now stream remote_addr s =
      let info = Info.new remote_addr now (peer_certs peer_certificates stream) in
      let work : Work A Certs = record {
        builder = connection_builder s.config;
        max_connection_age = s.config.max_connection_age;
        max_connection_age_grace = s.config.max_connection_age_grace;
        connect_info = record { local_addr = s.local_addr; remote_addr = info.address };
        peer_certificates = info.peer_certificates;
        on_connection_close = record { id = id };
      } in
      record s {
        connections = Registry.insert id info s.connections;
        connection_handlers = in_progress work ∷ s.connection_handlers;
      }

  unfoldable pub spawn_handshake : I → A → Server A I S Certs E → Server A I S Certs E
  spawn_handshake stream remote_addr s = record s {
    pending_connections =
        spawned stream remote_addr s.config.tls_handshake_timeout ∷ s.pending_connections;
  }

  unfoldable pub handle_incomming :
      (S → Option Certs) → ConnectionId → ℕ → I → A → Server A I S Certs E → Server A I S Certs E
  handle_incomming peer_certificates id now stream remote_addr s =
      if s.tls
      then (if leb s.config.max_pending_connections (length s.pending_connections)
          then s
          else spawn_handshake stream remote_addr s)
      else handle_connection peer_certificates id now (io stream) remote_addr s

  -- The branch of `pending_connections.join_next()`, with what the task gave; the tasks that are
  -- left are `rest`.
  unfoldable pub on_handshake :
      (S → Option Certs)
      → ConnectionId
      → ℕ
      → A
      → Result S (HandshakeError E)
      → List (Handshake A I S E)
      → Server A I S Certs E
      → Server A I S Certs E
  on_handshake peer_certificates id now remote_addr (err e) rest s = record s {
    pending_connections = rest;
  }
  on_handshake peer_certificates id now remote_addr (ok stream) rest s =
      handle_connection peer_certificates id now (tls_io stream) remote_addr
        (record s { pending_connections = rest })

  -- The panic goes on through `serve`, which drops the server and so aborts its tasks. A handler
  -- that is aborted is dropped on its own, after that.
  unfoldable pub unwind : Server A I S Certs E → Server A I S Certs E
  unwind s = record s { pending_connections = []; phase = crashed }

  -- The branch of `connection_handlers.join_next()`.
  unfoldable pub on_handler :
      Run (Unit {0}) → List (Handler A Certs) → Server A I S Certs E → Server A I S Certs E
  unfolding unwind
  on_handler (done u) rest s = record s { connection_handlers = rest }
  on_handler panic rest s = unwind (record s { connection_handlers = rest })

  -- `shutdown`, up to its wait for the handshakes, which it aborts. An aborted task goes on to its
  -- end: the runtime drops it some time later, and what is joined then is the error that stands
  -- under `panic` here.
  unfoldable pub begin_shutdown : Server A I S Certs E → Server A I S Certs E
  begin_shutdown s = record s { cancelled = true; phase = aborting }

  -- A round of `pending_connections.shutdown()`, which ignores what the task gave.
  unfoldable pub reap : List (Handshake A I S E) → Server A I S Certs E → Server A I S Certs E
  reap rest s = record s { pending_connections = rest }

  -- The wait for the handlers begins, and its timeout.
  unfoldable pub start_grace : ℕ → Server A I S Certs E → Server A I S Certs E
  start_grace now s = record s { phase = draining (now + connection_shutdown_grace_period) }

  -- One round of the loop `graceful_shutdown`, or of `connection_handlers.shutdown()`; both ignore
  -- what the task gave.
  unfoldable pub join : List (Handler A Certs) → Server A I S Certs E → Server A I S Certs E
  join rest s = record s { connection_handlers = rest }

  unfoldable pub finish_shutdown : Server A I S Certs E → Server A I S Certs E
  finish_shutdown s = record s { phase = stopped }

  -- The grace period is over before the handlers are, which are aborted and then waited for.
  unfoldable pub force_shutdown : Server A I S Certs E → Server A I S Certs E
  force_shutdown s = record s { phase = forcing }

  -- A task of the server goes on: a handshake is polled, or a handler ends, which drops its
  -- `OnConnectionClose`.
  unfoldable pub shake :
      ℕ → ℕ → Poll (Run (Result S E)) → Server A I S Certs E → Server A I S Certs E
  shake k now p s = record s {
    pending_connections = update_at (poll_handshake now p) k s.pending_connections;
  }

  unfoldable pub end_handler :
      ConnectionId → Run (Unit {0}) → Server A I S Certs E → Server A I S Certs E
  end_handler id r s = record s {
    connection_handlers = finish id r s.connection_handlers;
    connections = Registry.drop (record { id = id }) s.connections;
  }

  -- `ServerHandle::trigger_shutdown`.
  unfoldable pub trigger_shutdown : Server A I S Certs E → Server A I S Certs E
  trigger_shutdown s = record s { cancelled = true }

  unfoldable pub close_connection : ConnectionId → Server A I S Certs E → Server A I S Certs E
  unfolding close_at
  close_connection id s = record s { connections = close_at id s.connections }

  -- `ServerHandle::connections`.
  unfoldable pub listed : Server A I S Certs E → List (ConnectionId × ConnectionInfo A Certs)
  listed s = s.connections

  -- `ServerHandle::number_of_connections`.
  unfoldable pub number_of_connections : Server A I S Certs E → ℕ
  unfolding listed
  number_of_connections s = length (listed s)

  -- `ServerHandle::is_shutdown`: the server holds the receiver until it returns or unwinds.
  unfoldable pub is_shutdown : Server A I S Certs E → Bool
  is_shutdown s = elim s.phase [
    | serving ↦ false
    | aborting ↦ false
    | draining _ ↦ false
    | forcing ↦ false
    | stopped ↦ true
    | crashed ↦ true
  ]
