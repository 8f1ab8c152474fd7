-- ===== src/Server/Incoming.antt =====
-- src/lib.rs, `handle_incomming`: its three ways.
use sui_http.Prelude.{ℕ, ◌<◌, ◌≡◌, leb, true, false, Option, length, arith, Bool-cases, inl, inr}
use sui_http.Connection.Info.{ConnectionId}
use sui_http.Server
use sui_http.Server.{Server}
use sui_http.Server.Io.{io}

-- `t` is what `handle_incomming` makes of `s`: it drops the new stream where too many handshakes
-- are pending, starts a handshake where there is room, and has a handler serve it without TLS.
pub data Incoming {A I S Certs E : Type 0} (f : S → Option Certs) (id : ConnectionId) (now : ℕ)
    (stream : I) (remote_addr : A) (s t : Server A I S Certs E) : Type 0 where
  dropped : t ≡ s → Incoming f id now stream remote_addr s t
  shakes :
      s.tls ≡ true
      → length s.pending_connections < s.config.max_pending_connections
      → t ≡ Server.spawn_handshake stream remote_addr s
      → Incoming f id now stream remote_addr s t
  served :
      s.tls ≡ false
      → t ≡ Server.handle_connection f id now (io stream) remote_addr s
      → Incoming f id now stream remote_addr s t

pub handle_incomming-Incoming :
    {A I S Certs E : Type 0} (f : S → Option Certs) (id : ConnectionId) (now : ℕ) (stream : I)
    (remote_addr : A) (s : Server A I S Certs E)
    → Incoming f id now stream remote_addr s (Server.handle_incomming f id now stream remote_addr s)
unfolding Server.handle_incomming
handle_incomming-Incoming f id now stream remote_addr s =
    let full = leb s.config.max_pending_connections (length s.pending_connections) in
    elim (Bool-cases s.tls) [
      | inl e ↦ elim (Bool-cases full) [
        | inl l ↦ dropped (rw (e, l))
        | inr l ↦ shakes e (ground arith) (rw (e, l))
      ]
      | inr e ↦ served e (rw e)
    ]
