-- ===== src/Server/Tracked.antt =====
-- src/lib.rs: `connections` has an entry for each handler in progress, and no other.
pub mod Entries
use sui_http.Prelude.{
  ℕ, ◌≡◌, refl, sym, ap, ◌∙◌, subst, ◌==◌, leb, Bool, true, false, Option, some, List, [], ◌∷◌,
  length, Run, done, panic, Result, ok, err, arith, Bool-cases, inl, inr,
}
use sui_http.Connection.Info
use sui_http.Connection.Info.{ConnectionId, ConnectionInfo}
use sui_http.Connection.Registry
use sui_http.Connection.Registry.{keys, remove, Absent, Distinct, keys-remove, Distinct-erase}
use sui_http.Config.{Config}
use sui_http.Server
use sui_http.Server.{Server}
use sui_http.Server.Io.{ServerIo, io, tls_io, peer_certs}
use sui_http.Server.Tasks.{Handshake, HandshakeError, Handler, ended, take_at}
use sui_http.Server.Incoming.{dropped, shakes, served, handle_incomming-Incoming}
use sui_http.Server.Steps.{
  Step, triggered, closed, accepted, shook, handshake_joined, handshake_panicked, handler_ended,
  handler_joined, shut_down, reaped, aborted, joined, drained, forced, Reaches, reaches_rule,
}
use sui_http.Server.Tracked.Entries.{
  entries, in_work, keys-entries, entries-remove, entries-close_at, in_work-finish, in_work-take,
  remove-Absent,
}

pub Distinct-remove :
    {V : Type 0} (id : ConnectionId) (m : List (ConnectionId × V))
    → Distinct (keys m)
    → Distinct (keys (remove id m))
Distinct-remove id m d = subst Distinct (sym (keys-remove id m)) (Distinct-erase id (keys m) d)

module _ {A I S Certs E : Type 0} where
  -- `connections` and the handlers in progress say the same of each connection: its id, the
  -- peer's address and certificates; and no id stands twice.
  unfoldable pub Tracked : Server A I S Certs E → Type 0
  Tracked s =
      (entries s.connections ≡ in_work s.connection_handlers)
      × Distinct (keys (entries s.connections))

  handle_connection-Tracked :
      (f : S → Option Certs) (id : ConnectionId) (now : ℕ) (stream : ServerIo I S) (remote_addr : A)
      (s : Server A I S Certs E)
      → Absent id (keys s.connections)
      → Tracked s
      → Tracked (Server.handle_connection f id now stream remote_addr s)
  unfolding Server.handle_connection Tracked Registry.insert Info.new
  handle_connection-Tracked f id now stream remote_addr s fresh (e, d) =
      let same = remove-Absent id s.connections fresh in
      (
        ap (λ m. (id, (remote_addr, peer_certs f stream)) ∷ entries m) same
            ∙ ap (λ m. (id, (remote_addr, peer_certs f stream)) ∷ m) e,
        (
          subst (Absent id) (sym (ap (λ m. keys (entries m)) same ∙ keys-entries s.connections))
              fresh,
          subst (λ m. Distinct (keys (entries m))) (sym same) d,
        ),
      )

  handle_incomming-Tracked :
      (f : S → Option Certs) (id : ConnectionId) (now : ℕ) (stream : I) (remote_addr : A)
      (s : Server A I S Certs E)
      → Absent id (keys s.connections)
      → Tracked s
      → Tracked (Server.handle_incomming f id now stream remote_addr s)
  unfolding Server.spawn_handshake Tracked
  handle_incomming-Tracked f id now stream remote_addr s fresh h =
      elim (handle_incomming-Incoming f id now stream remote_addr s) [
        | dropped q ↦ subst Tracked (sym q) h
        | shakes e l q ↦ subst Tracked (sym q) h
        | served e q ↦
            subst Tracked (sym q)
              (handle_connection-Tracked f id now (io stream) remote_addr s fresh h)
      ]

  on_handshake-Tracked :
      (f : S → Option Certs) (id : ConnectionId) (now : ℕ) (remote_addr : A)
      (r : Result S (HandshakeError E)) (rest : List (Handshake A I S E)) (s : Server A I S Certs E)
      → Absent id (keys s.connections)
      → Tracked s
      → Tracked (Server.on_handshake f id now remote_addr r rest s)
  unfolding Server.on_handshake Tracked
  on_handshake-Tracked f id now remote_addr (err x) rest s fresh h = h
  on_handshake-Tracked f id now remote_addr (ok stream) rest s fresh h =
      handle_connection-Tracked f id now (tls_io stream) remote_addr
        (record s { pending_connections = rest }) fresh h

  end_handler-Tracked :
      (id : ConnectionId) (r : Run (Unit {0})) (s : Server A I S Certs E)
      → Tracked s
      → Tracked (Server.end_handler id r s)
  unfolding Server.end_handler Tracked Registry.drop
  end_handler-Tracked id r s (e, d) =
      let gone = entries-remove id s.connections in
      (
        gone ∙ ap (remove id) e ∙ sym (in_work-finish id r s.connection_handlers),
        subst (λ m. Distinct (keys m)) (sym gone) (Distinct-remove id (entries s.connections) d),
      )

  on_handler-Tracked :
      (k : ℕ) (r : Run (Unit {0})) (rest : List (Handler A Certs)) (s : Server A I S Certs E)
      → take_at k s.connection_handlers ≡ some (ended r, rest)
      → Tracked s
      → Tracked (Server.on_handler r rest s)
  unfolding Server.on_handler Server.unwind Tracked
  on_handler-Tracked k (done u) rest s g (e, d) =
      (e ∙ sym (in_work-take k (done u) s.connection_handlers rest g), d)
  on_handler-Tracked k panic rest s g (e, d) =
      (e ∙ sym (in_work-take k panic s.connection_handlers rest g), d)

  pub Tracked-rule :
      (f : S → Option Certs) (s t : Server A I S Certs E) → Step f s t → Tracked s → Tracked t
  unfolding Tracked Server.trigger_shutdown Server.close_connection Server.shake Server.unwind
      Server.begin_shutdown Server.reap Server.start_grace Server.join Server.finish_shutdown
      Server.force_shutdown
  Tracked-rule f s t (triggered q) h = subst Tracked (sym q) h
  Tracked-rule f s t (closed id q) (e, d) =
      let same = entries-close_at id s.connections in
      subst Tracked (sym q) (same ∙ e, subst (λ m. Distinct (keys m)) (sym same) d)
  Tracked-rule f s t (accepted id now stream remote_addr p fresh q) h =
      subst Tracked (sym q) (handle_incomming-Tracked f id now stream remote_addr s fresh h)
  Tracked-rule f s t (shook k now p q) h = subst Tracked (sym q) h
  Tracked-rule f s t (handshake_joined id now k remote_addr r rest p g fresh q) h =
      subst Tracked (sym q) (on_handshake-Tracked f id now remote_addr r rest s fresh h)
  Tracked-rule f s t (handshake_panicked k remote_addr rest p g q) h = subst Tracked (sym q) h
  Tracked-rule f s t (handler_ended id r q) h = subst Tracked (sym q) (end_handler-Tracked id r s h)
  Tracked-rule f s t (handler_joined k r rest p g q) h =
      subst Tracked (sym q) (on_handler-Tracked k r rest s g h)
  Tracked-rule f s t (shut_down p c q) h = subst Tracked (sym q) h
  Tracked-rule f s t (reaped k remote_addr r rest p g q) h = subst Tracked (sym q) h
  Tracked-rule f s t (aborted now p g q) h = subst Tracked (sym q) h
  Tracked-rule f s t (joined k r rest p g q) (e, d) =
      subst Tracked (sym q) (e ∙ sym (in_work-take k r s.connection_handlers rest g), d)
  Tracked-rule f s t (drained p g q) h = subst Tracked (sym q) h
  Tracked-rule f s t (forced deadline now p l q) h = subst Tracked (sym q) h

  -- Wherever a server gets from its start, `connections` and the handlers in progress say the same
  -- of each connection, its id, the peer's address and certificates, in the same order, and no id
  -- stands twice. A new connection has an id that is not in `connections`.
  pub Reaches-Tracked :
      (f : S → Option Certs) (config : Config) (tls : Bool) (local_addr : A)
      (t : Server A I S Certs E)
      → Reaches f (Server.start config tls local_addr) t
      → Tracked t
  unfolding Tracked Server.start
  Reaches-Tracked f config tls local_addr t r =
      reaches_rule Tracked (Tracked-rule f) (Server.start config tls local_addr) t r (refl, tt)
