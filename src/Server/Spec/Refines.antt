-- ===== src/Server/Spec/Refines.antt =====
-- Each step of a server is a change that its specification allows.
use sui_http.Prelude.{
  ℕ, ◌≡◌, refl, sym, ap, ◌∙◌, subst, Option, none, some, List, [], ◌∷◌, Run, done, panic, Result,
  ok, err, ◌==◌, if◌then◌else◌, arith,
}
use sui_http.Connection.Info
use sui_http.Connection.Info.{ConnectionId, ConnectionInfo}
use sui_http.Connection.Registry
use sui_http.Connection.Registry.{keys, remove, lookup, Absent, Distinct}
use sui_http.Connection.Serve.{lookup-Absent}
use sui_http.Server
use sui_http.Server.{Server, Phase, serving, aborting, draining, forcing, stopped, crashed}
use sui_http.Server.Io.{ServerIo, io, tls_io, peer_certs}
use sui_http.Server.Tasks.{Handshake, HandshakeError, Handler}
use sui_http.Server.Incoming.{dropped, shakes, served, handle_incomming-Incoming}
use sui_http.Server.Steps.{
  IsJoining, Step, triggered, closed, accepted, shook, handshake_joined, handshake_panicked,
  handler_ended, handler_joined, shut_down, reaped, aborted, joined, drained, forced, Reaches, here,
  step, reaches_rule,
}
use sui_http.Server.Spec.{
  Life, closing, View, Agrees, Label, arrives, handler_ends, proceeds, Change, asks, told, declines,
  opens, goes, stays, shuts, ends, crashes, Changes, none_yet, more, label_of, labels, view,
  life_of,
}
use sui_http.Server.Tracked.{Tracked, Tracked-rule}
use sui_http.Server.Tracked.Entries.{
  entries, in_work, keys-entries, entries-remove, entries-close_at, remove-Absent,
}

lookup-remove_any :
    {V : Type 0} (id j : ConnectionId) (m : List (ConnectionId × V))
    → Distinct (keys m)
    → lookup j (remove id m) ≡ (if id == j then none else lookup j m)
unfolding lookup remove
lookup-remove_any id j [] d = ground arith
lookup-remove_any id j ((k, v) ∷ m) (h, d) =
    ground (arith, lookup-remove_any id j m d, lookup-Absent k m h)

alike : {A Certs : Type 0} (v : View A Certs) → Agrees v.connected v.asked v.life v
alike v = record { same_connected = λ j. refl; same_asked = refl; same_life = refl }

joining-closing : (ph : Phase) → IsJoining ph → life_of ph ≡ closing
joining-closing serving j = elim j [ ]
joining-closing aborting j = elim j [ ]
joining-closing (draining deadline) j = refl
joining-closing forcing j = refl
joining-closing stopped j = elim j [ ]
joining-closing crashed j = elim j [ ]

module _ {A I S Certs E : Type 0} where
  -- Nothing has changed but the phase, and not the life.
  as_late :
      (s : Server A I S Certs E) {life : Life}
      → life ≡ life_of s.phase
      → Agrees
          (view s).connected
          s.cancelled
          (life_of s.phase)
          (record { connected = (view s).connected; asked = s.cancelled; life = life })
  as_late s e = record { same_connected = λ j. refl; same_asked = refl; same_life = e }

  abbrev Allowed : Server A I S Certs E → Label → Server A I S Certs E → Type 0
  Allowed s l t = Change (view s) (view t) l

  handle_connection-Change :
      (f : S → Option Certs) (id : ConnectionId) (now : ℕ) (stream : ServerIo I S) (remote_addr : A)
      (s : Server A I S Certs E)
      → s.phase ≡ serving
      → Absent id (keys s.connections)
      → Allowed s (arrives id) (Server.handle_connection f id now stream remote_addr s)
  unfolding Server.handle_connection Registry.insert Info.new lookup
  handle_connection-Change f id now stream remote_addr s p fresh =
      opens id remote_addr (peer_certs f stream) (ap life_of p)
        (lookup-Absent id (entries s.connections)
          (subst (Absent id) (sym (keys-entries s.connections)) fresh))
        (record {
          same_connected = λ j.
              ap
                (λ m.
                  if id == j then some (remote_addr, peer_certs f stream) else lookup j (entries m))
                (remove-Absent id s.connections fresh);
          same_asked = refl;
          same_life = refl;
        })

  handle_incomming-Change :
      (f : S → Option Certs) (id : ConnectionId) (now : ℕ) (stream : I) (remote_addr : A)
      (s : Server A I S Certs E)
      → s.phase ≡ serving
      → Absent id (keys s.connections)
      → Allowed s (arrives id) (Server.handle_incomming f id now stream remote_addr s)
  unfolding Server.spawn_handshake
  handle_incomming-Change f id now stream remote_addr s p fresh =
      elim (handle_incomming-Incoming f id now stream remote_addr s) [
        | dropped q ↦ subst (Allowed s (arrives id)) (sym q) (declines id (alike (view s)))
        | shakes e l q ↦ subst (Allowed s (arrives id)) (sym q) (declines id (alike (view s)))
        | served e q ↦
            subst (Allowed s (arrives id)) (sym q)
              (handle_connection-Change f id now (io stream) remote_addr s p fresh)
      ]

  on_handshake-Change :
      (f : S → Option Certs) (id : ConnectionId) (now : ℕ) (remote_addr : A)
      (r : Result S (HandshakeError E)) (rest : List (Handshake A I S E)) (s : Server A I S Certs E)
      → s.phase ≡ serving
      → Absent id (keys s.connections)
      → Allowed s (arrives id) (Server.on_handshake f id now remote_addr r rest s)
  unfolding Server.on_handshake
  on_handshake-Change f id now remote_addr (err x) rest s p fresh = declines id (alike (view s))
  on_handshake-Change f id now remote_addr (ok stream) rest s p fresh =
      handle_connection-Change f id now (tls_io stream) remote_addr
        (record s { pending_connections = rest }) p fresh

  on_handler-Change :
      (r : Run (Unit {0})) (rest : List (Handler A Certs)) (s : Server A I S Certs E)
      → s.phase ≡ serving
      → Allowed s proceeds (Server.on_handler r rest s)
  unfolding Server.on_handler Server.unwind
  on_handler-Change (done u) rest s p = stays (alike (view s))
  on_handler-Change panic rest s p = crashes (ap life_of p) (alike _)

  end_handler-Change :
      (id : ConnectionId) (r : Run (Unit {0})) (s : Server A I S Certs E)
      → Tracked s
      → Allowed s (handler_ends id) (Server.end_handler id r s)
  unfolding Server.end_handler Registry.drop Tracked
  end_handler-Change id r s (e, d) = goes id (record {
    same_connected =
        λ j. ap (lookup j) (entries-remove id s.connections) ∙ lookup-remove_any id j _ d;
    same_asked = refl;
    same_life = refl;
  })

  -- A server with no handler left has nobody connected.
  drained-Change :
      (s : Server A I S Certs E)
      → IsJoining s.phase
      → s.connection_handlers ≡ []
      → Tracked s
      → Allowed s proceeds (Server.finish_shutdown s)
  unfolding lookup Server.finish_shutdown Tracked
  drained-Change s j g (e, d) =
      ends (joining-closing s.phase j) (λ i. ap (lookup i) (e ∙ ap in_work g)) (alike _)

  Step-Change :
      (f : S → Option Certs) (s t : Server A I S Certs E) (w : Step f s t)
      → Tracked s
      → Allowed s (label_of w) t
  unfolding Server.trigger_shutdown Server.close_connection Server.shake Server.unwind
      Server.begin_shutdown Server.reap Server.start_grace Server.join Server.force_shutdown
  Step-Change f s t (triggered q) h = subst (Allowed s _) (sym q) (asks (alike _))
  Step-Change f s t (closed id q) h = subst (Allowed s _) (sym q) (
      told id (record {
        same_connected = λ j. ap (lookup j) (entries-close_at id s.connections);
        same_asked = refl;
        same_life = refl;
      }))
  Step-Change f s t (accepted id now stream remote_addr p fresh q) h =
      subst (Allowed s _) (sym q) (handle_incomming-Change f id now stream remote_addr s p fresh)
  Step-Change f s t (shook k now p q) h = subst (Allowed s _) (sym q) (stays (alike (view s)))
  Step-Change f s t (handshake_joined id now k remote_addr r rest p g fresh q) h =
      subst (Allowed s _) (sym q) (on_handshake-Change f id now remote_addr r rest s p fresh)
  Step-Change f s t (handshake_panicked k remote_addr rest p g q) h =
      subst (Allowed s _) (sym q) (crashes (ap life_of p) (alike _))
  Step-Change f s t (handler_ended id r q) h =
      subst (Allowed s _) (sym q) (end_handler-Change id r s h)
  Step-Change f s t (handler_joined k r rest p g q) h =
      subst (Allowed s _) (sym q) (on_handler-Change r rest s p)
  Step-Change f s t (shut_down p c q) h =
      subst (Allowed s _) (sym q) (shuts (ap life_of p) c (alike _))
  Step-Change f s t (reaped k remote_addr r rest p g q) h =
      subst (Allowed s _) (sym q) (stays (alike (view s)))
  Step-Change f s t (aborted now p g q) h =
      subst (Allowed s _) (sym q) (stays (as_late s (ap life_of (sym p))))
  Step-Change f s t (joined k r rest j g q) h = subst (Allowed s _) (sym q) (stays (alike (view s)))
  Step-Change f s t (drained j g q) h = subst (Allowed s _) (sym q) (drained-Change s j g h)
  Step-Change f s t (forced deadline now p l q) h =
      subst (Allowed s _) (sym q) (stays (as_late s (ap life_of (sym p))))

  -- What happens to the connections of a server, from any state where `connections` and the
  -- handlers agree, step by step, is a change that its specification allows for the label of the
  -- step: a connection goes only at a step at which its own handler ends, and there it does;
  -- `close` and `trigger_shutdown` change nothing in who is connected; a connection opens only
  -- before the shutdown, under a free id; the shutdown begins only when it was asked for, and is over
  -- only when nobody is connected.
  pub Reaches-Changes :
      (f : S → Option Certs) (s t : Server A I S Certs E) (r : Reaches f s t)
      → Tracked s
      → Changes (view s) (labels r) (view t)
  Reaches-Changes f s _ here h = none_yet
  Reaches-Changes f s u (step r w) h =
      more (Reaches-Changes f s _ r h)
        (Step-Change f _ u w (reaches_rule Tracked (Tracked-rule f) s _ r h))
