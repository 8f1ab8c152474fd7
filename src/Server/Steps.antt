-- ===== src/Server/Steps.antt =====
-- src/lib.rs: the steps of a server, whichever branch of `select!` is taken and however its tasks
-- go on. A step that gives a connection an id takes the address of data that is just allocated,
-- so no connection that the server still holds has it.
use sui_http.Prelude.{ℕ, ◌≡◌, true, Option, some, List, [], ◌≤◌, Poll, Run, done, panic, Result}
use sui_http.Connection.Info.{ConnectionId}
use sui_http.Connection.Registry.{keys, Absent}
use sui_http.Server
use sui_http.Server.{Server, Phase, serving, aborting, draining, forcing, stopped, crashed}
use sui_http.Server.Tasks.{Handshake, HandshakeError, shaken, ended, Handler, take_at}

-- The shutdown joins handlers, in its grace period or after it.
abbrev pub IsJoining : Phase → Type 0
IsJoining serving = ⊥
IsJoining aborting = ⊥
IsJoining (draining deadline) = Unit
IsJoining forcing = Unit
IsJoining stopped = ⊥
IsJoining crashed = ⊥

pub data Step {A I S Certs E : Type 0} (peer_certificates : S → Option Certs)
    (s t : Server A I S Certs E) : Type 0 where
  triggered : t ≡ Server.trigger_shutdown s → Step peer_certificates s t
  closed : (id : ConnectionId) → t ≡ Server.close_connection id s → Step peer_certificates s t
  accepted :
      (id : ConnectionId) (now : ℕ) (stream : I) (remote_addr : A)
      → s.phase ≡ serving
      → Absent id (keys s.connections)
      → t ≡ Server.handle_incomming peer_certificates id now stream remote_addr s
      → Step peer_certificates s t
  shook :
      (k now : ℕ) (p : Poll (Run (Result S E)))
      → t ≡ Server.shake k now p s
      → Step peer_certificates s t
  handshake_joined :
      (id : ConnectionId) (now k : ℕ) (remote_addr : A) (r : Result S (HandshakeError E))
      (rest : List (Handshake A I S E))
      → s.phase ≡ serving
      → take_at k s.pending_connections ≡ some (shaken remote_addr (done r), rest)
      → Absent id (keys s.connections)
      → t ≡ Server.on_handshake peer_certificates id now remote_addr r rest s
      → Step peer_certificates s t
  handshake_panicked :
      (k : ℕ) (remote_addr : A) (rest : List (Handshake A I S E))
      → s.phase ≡ serving
      → take_at k s.pending_connections ≡ some (shaken remote_addr panic, rest)
      → t ≡ Server.unwind s
      → Step peer_certificates s t
  handler_ended :
      (id : ConnectionId) (r : Run (Unit {0}))
      → t ≡ Server.end_handler id r s
      → Step peer_certificates s t
  handler_joined :
      (k : ℕ) (r : Run (Unit {0})) (rest : List (Handler A Certs))
      → s.phase ≡ serving
      → take_at k s.connection_handlers ≡ some (ended r, rest)
      → t ≡ Server.on_handler r rest s
      → Step peer_certificates s t
  shut_down :
      s.phase ≡ serving
      → s.cancelled ≡ true
      → t ≡ Server.begin_shutdown s
      → Step peer_certificates s t
  reaped :
      (k : ℕ) (remote_addr : A) (r : Run (Result S (HandshakeError E)))
      (rest : List (Handshake A I S E))
      → s.phase ≡ aborting
      → take_at k s.pending_connections ≡ some (shaken remote_addr r, rest)
      → t ≡ Server.reap rest s
      → Step peer_certificates s t
  aborted :
      (now : ℕ)
      → s.phase ≡ aborting
      → s.pending_connections ≡ []
      → t ≡ Server.start_grace now s
      → Step peer_certificates s t
  joined :
      (k : ℕ) (r : Run (Unit {0})) (rest : List (Handler A Certs))
      → IsJoining s.phase
      → take_at k s.connection_handlers ≡ some (ended r, rest)
      → t ≡ Server.join rest s
      → Step peer_certificates s t
  drained :
      IsJoining s.phase
      → s.connection_handlers ≡ []
      → t ≡ Server.finish_shutdown s
      → Step peer_certificates s t
  forced :
      (deadline now : ℕ)
      → s.phase ≡ draining deadline
      → deadline ≤ now
      → t ≡ Server.force_shutdown s
      → Step peer_certificates s t

-- One step after another.
pub data Reaches {A I S Certs E : Type 0} (peer_certificates : S → Option Certs)
    (s : Server A I S Certs E) : Server A I S Certs E → Type 0 where
  here : Reaches peer_certificates s s
  step :
      {t u : Server A I S Certs E}
      → Reaches peer_certificates s t
      → Step peer_certificates t u
      → Reaches peer_certificates s u

-- An invariant holds wherever the server gets.
pub reaches_rule :
    {A I S Certs E : Type 0} {peer_certificates : S → Option Certs}
    (P : Server A I S Certs E → Type 0)
    → ((s t : Server A I S Certs E) → Step peer_certificates s t → P s → P t)
    → (s t : Server A I S Certs E) → Reaches peer_certificates s t
    → P s
    → P t
reaches_rule P f s _ here p = p
reaches_rule P f s u (step r w) p = f _ u w (reaches_rule P f s _ r p)
