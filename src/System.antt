-- ===== src/System.antt =====
-- src/lib.rs and src/connection_handler.rs together: the server with the tasks of its connections,
-- which run beside its loop. Each has its own state, the `Drive` of `drive_connection`, from the
-- first time that it is polled.
pub mod Runs
pub mod Works
pub mod Known
pub mod Polls
pub mod Everyone
pub mod Asks
pub mod Removes
use sui_http.Prelude.{
  ℕ, Bool, Option, none, some, List, [], ◌∷◌, Result, Poll, Run, done, panic, Duration, ◌==◌,
  if◌then◌else◌,
}
use sui_http.Connection.Info.{ConnectionId, ConnectionInfo, is_cancelled}
use sui_http.Connection.Registry
use sui_http.Connection.Registry.{lookup, keys, Absent}
use sui_http.Connection.Drive
use sui_http.Connection.Drive.{Wake, Drive, Turn, again, suspended, closed, wake_up}
use sui_http.Server
use sui_http.Server.{Server}
use sui_http.Server.Tasks.{Handler, in_progress, ended, Work}
use sui_http.Server.Loop
use sui_http.Server.Loop.{Event, act, accept, join_pending}

pub record System (A I S Certs E : Type 0) : Type 0 where
  pub server : Server A I S Certs E
  pub drives : List (ConnectionId × Drive)

-- What happens to a server and its connections: the loop takes a branch, its wait in `shutdown` is
-- polled, a handshake is polled, a handle is called; or the task of a connection is polled at a
-- time, with what its connection gives in each round and the branch that each round polls first;
-- or such a poll panics, or the task is dropped after the shutdown aborted it.
pub data Happening (A I S E H : Type 0) : Type 0 where
  selects : Loop.Branch A I → Happening A I S E H
  awaits : ℕ → Happening A I S E H
  shakes : ℕ → ℕ → Poll (Run (Result S E)) → Happening A I S E H
  triggers : Happening A I S E H
  closes : ConnectionId → Happening A I S E H
  wakes :
      ConnectionId → ℕ → (ℕ → Poll (Result (Unit {0}) H)) → (ℕ → Drive.Branch) → Happening A I S E H
  panics : ConnectionId → Happening A I S E H

-- The handler in progress for the connection `id`.
unfoldable pub work_of :
    {A Certs : Type 0} → ConnectionId → List (Handler A Certs) → Option (Work A Certs)
work_of id [] = none
work_of id (ended r ∷ hs) = work_of id hs
work_of id (in_progress w ∷ hs) = if w.on_connection_close.id == id then some w else work_of id hs

-- The task's state: the one it was left in, or that of its start.
abbrev pub drive_or : Option Duration → Option Drive → Drive
drive_or max_connection_age none = Drive.start max_connection_age
drive_or max_connection_age (some d) = d

-- A connection without an entry has no task that could ask.
abbrev pub token_or : {A Certs : Type 0} → Bool → Option (ConnectionInfo A Certs) → Bool
token_or cancelled none = cancelled
token_or cancelled (some c) = is_cancelled cancelled c

module _ {A I S Certs E : Type 0} where
  -- The state of the connection's token, a child of the server's.
  unfoldable pub token : ConnectionId → Server A I S Certs E → Bool
  token id s = token_or s.cancelled (lookup id s.connections)

  unfoldable pub start : Server A I S Certs E → System A I S Certs E
  start s = record { server = s; drives = [] }

  -- The task is over, and its future dropped.
  unfoldable pub end_task :
      ConnectionId → Run (Unit {0}) → System A I S Certs E → System A I S Certs E
  end_task id r y = record {
    server = Server.end_handler id r y.server;
    drives = Registry.remove id y.drives;
  }

  unfoldable pub leave : ConnectionId → Drive → System A I S Certs E → System A I S Certs E
  leave id d y = record y { drives = Registry.insert id d y.drives }

  unfoldable pub on_turn :
      {H : Type 0} → ConnectionId → Turn H → System A I S Certs E → System A I S Certs E
  unfolding end_task leave
  on_turn id (again d) y = leave id d y
  on_turn id (suspended d) y = leave id d y
  on_turn id (closed d o) y = end_task id (done tt) y

  unfoldable pub poll_task :
      {H : Type 0}
      → ConnectionId
      → Wake H
      → Option (Work A Certs)
      → System A I S Certs E
      → System A I S Certs E
  unfolding on_turn
  poll_task id w none y = y
  poll_task id w (some work) y =
      on_turn id
        (wake_up work.max_connection_age_grace w
          (drive_or work.max_connection_age (lookup id y.drives)))
        y

  unfoldable pub panic_task :
      ConnectionId → Option (Work A Certs) → System A I S Certs E → System A I S Certs E
  unfolding end_task
  panic_task id none y = y
  panic_task id (some work) y = end_task id panic y

module _ {A I S Certs E : Type 0} (peer_certificates : S → Option Certs) where
  unfoldable pub serve : Event A I S E → System A I S Certs E → System A I S Certs E
  unfolding act
  serve e y = record y { server = act peer_certificates e y.server }

module _ {A I S Certs E H : Type 0} (peer_certificates : S → Option Certs) where
  unfoldable pub happen : Happening A I S E H → System A I S Certs E → System A I S Certs E
  unfolding serve poll_task panic_task token work_of
  happen (selects b) y = serve peer_certificates (Loop.selects b) y
  happen (awaits now) y = serve peer_certificates (Loop.wakes now) y
  happen (shakes k now p) y = serve peer_certificates (Loop.shakes k now p) y
  happen triggers y = serve peer_certificates Loop.triggers y
  happen (closes id) y = serve peer_certificates (Loop.closes id) y
  happen (wakes id now conn first) y =
      let w : Wake H = record {
        now = now;
        cancelled = token id y.server;
        conn = conn;
        first = first;
      } in
      poll_task id w (work_of id y.server.connection_handlers) y
  happen (panics id) y = panic_task id (work_of id y.server.connection_handlers) y

  unfoldable pub run : List (Happening A I S E H) → System A I S Certs E → System A I S Certs E
  unfolding happen
  run [] y = y
  run (h ∷ hs) y = run hs (happen h y)
