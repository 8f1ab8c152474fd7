-- ===== src/Server/Stopped.antt =====
-- src/lib.rs, `shutdown`: what a server that has returned leaves behind.
use sui_http.Prelude.{
  ℕ, ◌≡◌, refl, sym, ap, ◌∙◌, subst, Bool, true, Option, List, [], ◌∷◌, length, Run, done, panic,
  Poll, Result, ok, err, arith,
}
use sui_http.Connection.Info.{ConnectionId, ConnectionInfo}
use sui_http.Connection.Registry
use sui_http.Config.{Config}
use sui_http.Server
use sui_http.Server.{
  Server, Phase, serving, aborting, draining, forcing, stopped, crashed, number_of_connections,
}
use sui_http.Server.Tasks.{Handshake, HandshakeError, Handler, finish, poll_handshake, update_at}
use sui_http.Server.Incoming.{dropped, shakes, served, handle_incomming-Incoming}
use sui_http.Server.Steps.{
  IsJoining, Step, triggered, closed, accepted, shook, handshake_joined, handshake_panicked,
  handler_ended, handler_joined, shut_down, reaped, aborted, joined, drained, forced, Reaches,
  reaches_rule,
}
use sui_http.Server.Tracked.{Tracked, Tracked-rule}
use sui_http.Server.Tracked.Entries.{entries, in_work}

empty_entries :
    {A Certs : Type 0} (m : List (ConnectionId × ConnectionInfo A Certs)) → entries m ≡ [] → m ≡ []
empty_entries [] h = refl
empty_entries (c ∷ m) h = grind arith

module _ {A I S Certs E : Type 0} where
  -- What is left in each phase.
  unfoldable pub Left : Phase → Server A I S Certs E → Type 0
  Left serving s = Unit
  Left aborting s = s.cancelled ≡ true
  Left forcing s = (s.cancelled ≡ true) × (s.pending_connections ≡ [])
  Left (draining deadline) s = (s.cancelled ≡ true) × (s.pending_connections ≡ [])
  Left stopped s =
      (s.cancelled ≡ true)
      × (s.pending_connections ≡ [])
      × (s.connection_handlers ≡ [])
      × (s.connections ≡ [])
  Left crashed s = s.pending_connections ≡ []

  abbrev pub Settled : Server A I S Certs E → Type 0
  Settled s = Left s.phase s

  trigger_shutdown-Left :
      (ph : Phase) (s : Server A I S Certs E) → Left ph s → Left ph (Server.trigger_shutdown s)
  unfolding Left Server.trigger_shutdown
  trigger_shutdown-Left serving s h = tt
  trigger_shutdown-Left aborting s h = refl
  trigger_shutdown-Left forcing s h = (refl, h.1)
  trigger_shutdown-Left (draining deadline) s h = (refl, h.1)
  trigger_shutdown-Left stopped s h = (refl, h.1, h.2, h.3)
  trigger_shutdown-Left crashed s h = h

  close_connection-Left :
      (id : ConnectionId) (ph : Phase) (s : Server A I S Certs E)
      → Left ph s
      → Left ph (Server.close_connection id s)
  unfolding Left Server.close_connection Server.close_at
  close_connection-Left id serving s h = tt
  close_connection-Left id aborting s h = h
  close_connection-Left id forcing s h = h
  close_connection-Left id (draining deadline) s h = h
  close_connection-Left id stopped s h = (h.0, h.1, h.2, ap (Server.close_at id) h.3)
  close_connection-Left id crashed s h = h

  shake-Left :
      (k now : ℕ) (p : Poll (Run (Result S E))) (ph : Phase) (s : Server A I S Certs E)
      → Left ph s
      → Left ph (Server.shake k now p s)
  unfolding Left Server.shake update_at
  shake-Left k now p serving s h = tt
  shake-Left k now p aborting s h = h
  shake-Left k now p forcing s h = (h.0, ap (update_at (poll_handshake now p) k) h.1)
  shake-Left k now p (draining deadline) s h = (h.0, ap (update_at (poll_handshake now p) k) h.1)
  shake-Left k now p stopped s h = (h.0, ap (update_at (poll_handshake now p) k) h.1, h.2, h.3)
  shake-Left k now p crashed s h = ap (update_at (poll_handshake now p) k) h

  end_handler-Left :
      (id : ConnectionId) (r : Run (Unit {0})) (ph : Phase) (s : Server A I S Certs E)
      → Left ph s
      → Left ph (Server.end_handler id r s)
  unfolding Left Server.end_handler finish Registry.drop Registry.remove
  end_handler-Left id r serving s h = tt
  end_handler-Left id r aborting s h = h
  end_handler-Left id r forcing s h = h
  end_handler-Left id r (draining deadline) s h = h
  end_handler-Left id r stopped s h = (h.0, h.1, ap (finish id r) h.2, ap (Registry.remove id) h.3)
  end_handler-Left id r crashed s h = h

  -- In the loop nothing is asked.
  serving-Settled : (s : Server A I S Certs E) → s.phase ≡ serving → Settled s
  unfolding Left
  serving-Settled s p = subst (λ ph. Left ph s) (sym p) tt

  -- The handshakes are gone by the time that handlers are joined.
  joining-Left :
      (ph : Phase) (s : Server A I S Certs E)
      → IsJoining ph
      → Left ph s
      → (s.cancelled ≡ true) × (s.pending_connections ≡ [])
  unfolding Left
  joining-Left serving s j h = elim j [ ]
  joining-Left aborting s j h = elim j [ ]
  joining-Left stopped s j h = elim j [ ]
  joining-Left crashed s j h = elim j [ ]
  joining-Left (draining deadline) s j h = h
  joining-Left forcing s j h = h

  join-Left :
      (ph : Phase) (rest : List (Handler A Certs)) (s : Server A I S Certs E)
      → IsJoining ph
      → Left ph s
      → Left ph (Server.join rest s)
  unfolding Left Server.join
  join-Left serving rest s j h = elim j [ ]
  join-Left aborting rest s j h = elim j [ ]
  join-Left stopped rest s j h = elim j [ ]
  join-Left crashed rest s j h = elim j [ ]
  join-Left (draining deadline) rest s j h = h
  join-Left forcing rest s j h = h

  finish_shutdown-Settled :
      (s : Server A I S Certs E)
      → IsJoining s.phase
      → s.connection_handlers ≡ []
      → Tracked s
      → Settled s
      → Settled (Server.finish_shutdown s)
  unfolding Left Server.finish_shutdown Tracked
  finish_shutdown-Settled s j g (e, d) h =
      let left = joining-Left s.phase s j h in
      (left.0, left.1, g, empty_entries _ (e ∙ ap in_work g))

  on_handler-Settled :
      (r : Run (Unit {0})) (rest : List (Handler A Certs)) (s : Server A I S Certs E)
      → s.phase ≡ serving
      → Settled (Server.on_handler r rest s)
  unfolding Server.on_handler Server.unwind Left
  on_handler-Settled (done u) rest s p = serving-Settled _ p
  on_handler-Settled panic rest s p = refl

  handle_incomming-serving :
      (f : S → Option Certs) (id : ConnectionId) (now : ℕ) (stream : I) (remote_addr : A)
      (s : Server A I S Certs E)
      → s.phase ≡ serving
      → (Server.handle_incomming f id now stream remote_addr s).phase ≡ serving
  unfolding Server.spawn_handshake Server.handle_connection
  handle_incomming-serving f id now stream remote_addr s p =
      elim (handle_incomming-Incoming f id now stream remote_addr s) [
        | dropped q ↦ ap (λ t. t.phase) q ∙ p
        | shakes e l q ↦ ap (λ t. t.phase) q ∙ p
        | served e q ↦ ap (λ t. t.phase) q ∙ p
      ]

  on_handshake-serving :
      (f : S → Option Certs) (id : ConnectionId) (now : ℕ) (remote_addr : A)
      (r : Result S (HandshakeError E)) (rest : List (Handshake A I S E)) (s : Server A I S Certs E)
      → s.phase ≡ serving
      → (Server.on_handshake f id now remote_addr r rest s).phase ≡ serving
  unfolding Server.on_handshake Server.handle_connection
  on_handshake-serving f id now remote_addr (err x) rest s p = p
  on_handshake-serving f id now remote_addr (ok stream) rest s p = p

  Settled-rule :
      (f : S → Option Certs) (s t : Server A I S Certs E)
      → Step f s t
      → Tracked s
      → Settled s
      → Settled t
  unfolding Left Server.begin_shutdown Server.reap Server.start_grace Server.join
      Server.force_shutdown Server.unwind Server.trigger_shutdown Server.close_connection
      Server.shake Server.end_handler
  Settled-rule f s t (triggered q) w h = subst Settled (sym q) (trigger_shutdown-Left s.phase s h)
  Settled-rule f s t (closed id q) w h =
      subst Settled (sym q) (close_connection-Left id s.phase s h)
  Settled-rule f s t (accepted id now stream remote_addr p fresh q) w h =
      subst Settled (sym q)
        (serving-Settled _ (handle_incomming-serving f id now stream remote_addr s p))
  Settled-rule f s t (shook k now p q) w h = subst Settled (sym q) (shake-Left k now p s.phase s h)
  Settled-rule f s t (handshake_joined id now k remote_addr r rest p g fresh q) w h =
      subst Settled (sym q)
        (serving-Settled _ (on_handshake-serving f id now remote_addr r rest s p))
  Settled-rule f s t (handshake_panicked k remote_addr rest p g q) w h = subst Settled (sym q) refl
  Settled-rule f s t (handler_ended id r q) w h =
      subst Settled (sym q) (end_handler-Left id r s.phase s h)
  Settled-rule f s t (handler_joined k r rest p g q) w h =
      subst Settled (sym q) (on_handler-Settled r rest s p)
  Settled-rule f s t (shut_down p c q) w h = subst Settled (sym q) refl
  Settled-rule f s t (reaped k remote_addr r rest p g q) w h =
      subst Settled (sym q)
        (subst (λ ph. Left ph (Server.reap rest s)) (sym p) (subst (λ ph. Left ph s) p h))
  Settled-rule f s t (aborted now p g q) w h =
      subst Settled (sym q) (subst (λ ph. Left ph s) p h, g)
  Settled-rule f s t (joined k r rest j g q) w h =
      subst Settled (sym q) (join-Left s.phase rest s j h)
  Settled-rule f s t (drained j g q) w h = subst Settled (sym q) (finish_shutdown-Settled s j g w h)
  Settled-rule f s t (forced deadline now p l q) w h =
      subst Settled (sym q) (subst (λ ph. Left ph s) p h)

  -- A server that started, and whose `serve` has returned, was asked to shut down; it has no
  -- handshake pending, no handler left, and its handle reports no connection, whether the
  -- handlers ended within the grace period or were aborted.
  pub stopped-IsEmpty :
      (f : S → Option Certs) (config : Config) (tls : Bool) (local_addr : A)
      (t : Server A I S Certs E)
      → Reaches f (Server.start config tls local_addr) t
      → t.phase ≡ stopped
      → (t.cancelled ≡ true)
        × (t.pending_connections ≡ [])
        × (t.connection_handlers ≡ [])
        × (number_of_connections t ≡ 0)
  unfolding Left Tracked Server.start number_of_connections
  stopped-IsEmpty f config tls local_addr t r p =
      let start = Server.start config tls local_addr in
      let reached =
        reaches_rule (λ u. Tracked u × Settled u)
          (λ u v w h. (Tracked-rule f u v w h.0, Settled-rule f u v w h.0 h.1)) start t r
          ((refl, tt), tt) in
      let left = subst (λ ph. Left ph t) p reached.1 in (left.0, left.1, left.2, ap length left.3)
