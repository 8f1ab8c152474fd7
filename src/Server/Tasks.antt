-- ===== src/Server/Tasks.antt =====
-- src/lib.rs: the tasks that `Server` spawns, a TLS handshake or the handler of a connection, and
-- what becomes of them.
use sui_http.Prelude.{
  ℕ, zero, suc, ◌+◌, ◌==◌, leb, Option, none, some, List, [], ◌∷◌, Result, ok, err, Run, done,
  panic, Poll, ready, pending, Duration, if◌then◌else◌,
}
use sui_http.Config.Builder.{Call}
use sui_http.Connection.Info.{ConnectionId, ConnectInfo}
use sui_http.Connection.Registry.{OnConnectionClose}

pub data HandshakeError (E : Type 0) : Type 0 where
  timed_out : HandshakeError E
  tls_error : E → HandshakeError E

-- A task of `pending_connections`: not polled yet, with its stream, the peer and its timeout; in
-- progress, with the deadline that its first poll set; or over, with what it returned.
pub data Handshake (A I S E : Type 0) : Type 0 where
  spawned : I → A → Duration → Handshake A I S E
  handshaking : I → A → ℕ → Handshake A I S E
  shaken : A → Run (Result S (HandshakeError E)) → Handshake A I S E

-- What `handle_connection` gives to `serve_connection`.
pub record Work (A Certs : Type 0) : Type 0 where
  pub builder : List Call
  pub max_connection_age : Option Duration
  pub max_connection_age_grace : Option Duration
  pub connect_info : ConnectInfo A
  pub peer_certificates : Option Certs
  pub on_connection_close : OnConnectionClose

-- A task of `connection_handlers`: in progress, or over and not joined yet.
pub data Handler (A Certs : Type 0) : Type 0 where
  in_progress : Work A Certs → Handler A Certs
  ended : Run (Unit {0}) → Handler A Certs

module _ {A I S E : Type 0} where
  unfoldable pub shaken_with : A → Run (Result S E) → Handshake A I S E
  shaken_with remote_addr panic = shaken remote_addr panic
  shaken_with remote_addr (done (ok stream)) = shaken remote_addr (done (ok stream))
  shaken_with remote_addr (done (err e)) = shaken remote_addr (done (err (tls_error e)))

  -- The session is not done at `now`: its timeout may be.
  unfoldable pub await_session : I → A → ℕ → ℕ → Handshake A I S E
  await_session stream remote_addr deadline now =
      if leb deadline now
      then shaken remote_addr (done (err timed_out))
      else handshaking stream remote_addr deadline

  -- The spawned task, polled at `now`: `timeout(timeout_duration, tls_acceptor.accept(io))` is called
  -- at its first poll, and counts from then.
  unfoldable pub poll_handshake :
      ℕ → Poll (Run (Result S E)) → Handshake A I S E → Handshake A I S E
  unfolding shaken_with await_session
  poll_handshake now p (shaken remote_addr r) = shaken remote_addr r
  poll_handshake now (ready r) (handshaking stream remote_addr deadline) = shaken_with remote_addr r
  poll_handshake now (ready r) (spawned stream remote_addr timeout) = shaken_with remote_addr r
  poll_handshake now pending (handshaking stream remote_addr deadline) =
      await_session stream remote_addr deadline now
  poll_handshake now pending (spawned stream remote_addr timeout) =
      await_session stream remote_addr (now + timeout) now

-- The `k`-th task is changed, or taken out.
unfoldable pub update_at : {X : Type 0} → (X → X) → ℕ → List X → List X
update_at f k [] = []
update_at f zero (x ∷ xs) = f x ∷ xs
update_at f (suc k) (x ∷ xs) = x ∷ update_at f k xs

unfoldable pub keep : {X : Type 0} → X → Option (X × List X) → Option (X × List X)
keep x none = none
keep x (some (y, ys)) = some (y, x ∷ ys)

unfoldable pub take_at : {X : Type 0} → ℕ → List X → Option (X × List X)
unfolding keep
take_at k [] = none
take_at zero (x ∷ xs) = some (x, xs)
take_at (suc k) (x ∷ xs) = keep x (take_at k xs)

module _ {A Certs : Type 0} where
  -- The handler of the connection `id` ends.
  unfoldable pub finish :
      ConnectionId → Run (Unit {0}) → List (Handler A Certs) → List (Handler A Certs)
  finish id r [] = []
  finish id r (ended r' ∷ hs) = ended r' ∷ finish id r hs
  finish id r (in_progress w ∷ hs) =
      if w.on_connection_close.id == id then ended r ∷ hs else in_progress w ∷ finish id r hs
