-- ===== src/System/Asks.antt =====
-- A connection that is asked to shut down stays asked, as long as it is there.
use sui_http.Prelude.{
  ℕ, ◌+◌, ◌≡◌, ◌≢◌, ◌⊎◌, refl, sym, ap, ◌∙◌, subst, ◌==◌, ==_iff, leb, is_empty, Bool, true, false,
  Option, none, some, List, [], ◌∷◌, Run, done, panic, ok, err, arith, Bool-cases, inl, inr,
  if◌then◌else◌,
}
use sui_http.Connection.Info
use sui_http.Connection.Info.{ConnectionId, ConnectionInfo, is_cancelled}
use sui_http.Connection.Registry
use sui_http.Connection.Registry.{lookup, keys, Absent, Distinct}
use sui_http.Server
use sui_http.Server.{
  Server, Phase, serving, aborting, draining, forcing, stopped, crashed, close_at,
  connection_shutdown_grace_period,
}
use sui_http.Server.Io.{ServerIo, io, tls_io}
use sui_http.Server.Tasks.{Handshake, spawned, handshaking, shaken, Handler, in_progress, ended}
use sui_http.Server.Incoming.{dropped, shakes, served, handle_incomming-Incoming}
use sui_http.Server.Tracked.{Tracked}
use sui_http.Server.Tracked.Entries.{keys-entries}
use sui_http.Server.Drain.{
  unjoined, unreaped, abort_handshakes, abort_handlers, graceful_shutdown, poll_in, poll_shutdown,
}
use sui_http.Server.Loop.{
  Branch, token_cancelled, accept, join_pending, join_handler, Event, selects, wakes, handler_ends,
  triggers, closes, on_pending, on_joined, select, select_in, act,
}
use sui_http.Server.Loop.Gone.{Gone, SparesAt, Spares, act-Gone, Absent-close_at}
use sui_http.System.{token_or, token}
use sui_http.System.Known.{lookup-remove_other, lookup-insert_other, Absent-removed}

token_or-true : {A Certs : Type 0} (o : Option (ConnectionInfo A Certs)) → token_or true o ≡ true
unfolding is_cancelled
token_or-true none = refl
token_or-true (some c) = refl

module _ {A Certs : Type 0} (id : ConnectionId) (cancelled : Bool) where
  -- `close` on a connection asks it, and leaves the others asked.
  close_at-asks :
      (m : List (ConnectionId × ConnectionInfo A Certs))
      → Absent id (keys m) ⊎ (token_or cancelled (lookup id (close_at id m)) ≡ true)
  unfolding close_at lookup is_cancelled Info.close
  close_at-asks [] = inl tt
  close_at-asks ((k, c) ∷ m) = elim (Bool-cases (k == id)) [
    | inl same ↦ inr (rw (same, lookup, close_at) (ground arith))
    | inr other ↦ elim (close_at-asks m) [
      | inl h ↦ inl (ground arith, h)
      | inr h ↦ inr (rw (other, lookup, close_at) h)
    ]
  ]

  close_at-asked :
      (j : ConnectionId) (m : List (ConnectionId × ConnectionInfo A Certs))
      → token_or cancelled (lookup id m) ≡ true
      → token_or cancelled (lookup id (close_at j m)) ≡ true
  unfolding close_at lookup is_cancelled Info.close
  close_at-asked j [] h = h
  close_at-asked j ((k, c) ∷ m) h = ground (arith, close_at-asked j m)

of_either : {X : Type 0} (P : X → Type 0) (b : Bool) (x y : X) → P x → P y → P (if b then x else y)
of_either P true x y p q = p
of_either P false x y p q = q

module _ {A I S Certs E : Type 0} (id : ConnectionId) where
  -- It was asked to shut down, if it is there.
  abbrev pub Asked : Server A I S Certs E → Type 0
  Asked s = Gone id s ⊎ (token id s ≡ true)

  abbrev IsAsked : Server A I S Certs E → Type 0
  IsAsked s = token id s ≡ true

  handle_connection-Asked :
      (f : S → Option Certs) (j : ConnectionId) (now : ℕ) (stream : ServerIo I S) (remote_addr : A)
      (s : Server A I S Certs E)
      → j ≢ id
      → token id s ≡ true
      → token id (Server.handle_connection f j now stream remote_addr s) ≡ true
  unfolding token Server.handle_connection
  handle_connection-Asked f j now stream remote_addr s other h =
      ap (token_or s.cancelled) (lookup-insert_other id j _ s.connections other) ∙ h

  handle_incomming-Asked :
      (f : S → Option Certs) (j : ConnectionId) (now : ℕ) (stream : I) (remote_addr : A)
      (s : Server A I S Certs E)
      → j ≢ id
      → token id s ≡ true
      → token id (Server.handle_incomming f j now stream remote_addr s) ≡ true
  unfolding token Server.spawn_handshake
  handle_incomming-Asked f j now stream remote_addr s other h =
      elim (handle_incomming-Incoming f j now stream remote_addr s) [
        | dropped q ↦ subst (λ t. token id t ≡ true) (sym q) h
        | shakes e l q ↦ subst (λ t. token id t ≡ true) (sym q) h
        | served e q ↦
            subst (λ t. token id t ≡ true) (sym q)
              (handle_connection-Asked f j now (io stream) remote_addr s other h)
      ]

  on_pending-Asked :
      (f : S → Option Certs) (j : ConnectionId) (now : ℕ)
      (o : Option (Handshake A I S E × List (Handshake A I S E))) (s : Server A I S Certs E)
      → j ≢ id
      → token id s ≡ true
      → token id (on_pending f j now o s) ≡ true
  unfolding token on_pending Server.on_handshake Server.unwind
  on_pending-Asked f j now none s other h = h
  on_pending-Asked f j now (some (spawned stream remote_addr timeout, rest)) s other h = h
  on_pending-Asked f j now (some (handshaking stream remote_addr deadline, rest)) s other h = h
  on_pending-Asked f j now (some (shaken remote_addr (done (err e)), rest)) s other h = h
  on_pending-Asked f j now (some (shaken remote_addr (done (ok stream)), rest)) s other h =
      handle_connection-Asked f j now (tls_io stream) remote_addr
        (record s { pending_connections = rest }) other h
  on_pending-Asked f j now (some (shaken remote_addr panic, rest)) s other h = h

  on_joined-Asked :
      (f : S → Option Certs) (o : Option (Handler A Certs × List (Handler A Certs)))
      (s : Server A I S Certs E)
      → token id s ≡ true
      → token id (on_joined f o s) ≡ true
  unfolding token on_joined Server.on_handler Server.unwind
  on_joined-Asked f none s h = h
  on_joined-Asked f (some (in_progress w, rest)) s h = h
  on_joined-Asked f (some (ended (done u), rest)) s h = h
  on_joined-Asked f (some (ended panic, rest)) s h = h

  select-Asked :
      (f : S → Option Certs) (b : Branch A I) (s : Server A I S Certs E)
      → SparesAt id b
      → token id s ≡ true
      → token id (select f b s) ≡ true
  unfolding token select Server.begin_shutdown
  select-Asked f token_cancelled s spares h =
      of_either IsAsked s.cancelled (Server.begin_shutdown s) s
        (token_or-true (lookup id s.connections)) h
  select-Asked f (accept j now stream remote_addr) s spares h =
      handle_incomming-Asked f j now stream remote_addr s spares h
  select-Asked f (join_pending j now k) s spares h = on_pending-Asked f j now _ s spares h
  select-Asked f (join_handler k) s spares h = on_joined-Asked f _ s h

  select_in-Asked :
      (f : S → Option Certs) (ph : Phase) (b : Branch A I) (s : Server A I S Certs E)
      → SparesAt id b
      → token id s ≡ true
      → token id (select_in f ph b s) ≡ true
  unfolding select_in
  select_in-Asked f serving b s spares h = select-Asked f b s spares h
  select_in-Asked f aborting b s spares h = h
  select_in-Asked f forcing b s spares h = h
  select_in-Asked f (draining deadline) b s spares h = h
  select_in-Asked f stopped b s spares h = h
  select_in-Asked f crashed b s spares h = h

  -- A poll of the shutdown leaves all entries.
  graceful_shutdown-Asked :
      (deadline now : ℕ) (s : Server A I S Certs E)
      → token id s ≡ true
      → token id (graceful_shutdown deadline now s) ≡ true
  unfolding token graceful_shutdown Server.join Server.finish_shutdown Server.force_shutdown
  graceful_shutdown-Asked deadline now s h =
      let s' = Server.join (unjoined s.connection_handlers) s in
      of_either IsAsked (is_empty (unjoined s.connection_handlers)) (Server.finish_shutdown s')
        (if leb deadline now then Server.force_shutdown s' else s') h
        (of_either IsAsked (leb deadline now) (Server.force_shutdown s') s' h h)

  abort_handshakes-Asked :
      (now : ℕ) (s : Server A I S Certs E)
      → token id s ≡ true
      → token id (abort_handshakes now s) ≡ true
  unfolding token abort_handshakes Server.reap Server.start_grace
  abort_handshakes-Asked now s h =
      let s' = Server.reap (unreaped s.pending_connections) s in
      let deadline = now + connection_shutdown_grace_period in
      of_either IsAsked (is_empty (unreaped s.pending_connections))
        (graceful_shutdown deadline now (Server.start_grace now s')) s'
        (graceful_shutdown-Asked deadline now (Server.start_grace now s') h) h

  abort_handlers-Asked :
      (s : Server A I S Certs E) → token id s ≡ true → token id (abort_handlers s) ≡ true
  unfolding token abort_handlers Server.join Server.finish_shutdown
  abort_handlers-Asked s h =
      let s' = Server.join (unjoined s.connection_handlers) s in
      of_either IsAsked (is_empty (unjoined s.connection_handlers)) (Server.finish_shutdown s') s' h
        h

  poll_in-Asked :
      (ph : Phase) (now : ℕ) (s : Server A I S Certs E)
      → token id s ≡ true
      → token id (poll_in ph now s) ≡ true
  unfolding poll_in
  poll_in-Asked serving now s h = h
  poll_in-Asked aborting now s h = abort_handshakes-Asked now s h
  poll_in-Asked (draining deadline) now s h = graceful_shutdown-Asked deadline now s h
  poll_in-Asked forcing now s h = abort_handlers-Asked s h
  poll_in-Asked stopped now s h = h
  poll_in-Asked crashed now s h = h

  pub end_handler-Asked :
      (j : ConnectionId) (r : Run (Unit {0})) (s : Server A I S Certs E)
      → Tracked s
      → token id s ≡ true
      → Asked (Server.end_handler j r s)
  unfolding token Server.end_handler Registry.drop Tracked
  end_handler-Asked j r s (e, d) h = elim (Bool-cases (j == id)) [
    | inl same ↦ inl (
        subst (λ k. Absent id (keys (Registry.remove k s.connections))) (sym ((==_iff j id).0 same))
          (Absent-removed id s.connections (subst Distinct (keys-entries s.connections) d)))
    | inr other ↦
        inr (ap (token_or s.cancelled) (lookup-remove_other id j s.connections (ground arith)) ∙ h)
  ]

  act-Asked_still :
      (f : S → Option Certs) (e : Event A I S E) (s : Server A I S Certs E)
      → Spares id e
      → Tracked s
      → token id s ≡ true
      → Asked (act f e s)
  unfolding token act poll_shutdown Server.shake Server.trigger_shutdown Server.close_connection
  act-Asked_still f (selects b) s spares r h = inr (select_in-Asked f s.phase b s spares h)
  act-Asked_still f (wakes now) s spares r h = inr (poll_in-Asked s.phase now s h)
  act-Asked_still f (Event.shakes k now p) s spares r h = inr h
  act-Asked_still f (handler_ends j x) s spares r h = end_handler-Asked j x s r h
  act-Asked_still f triggers s spares r h = inr (token_or-true (lookup id s.connections))
  act-Asked_still f (closes j) s spares r h = inr (close_at-asked id s.cancelled j s.connections h)

  pub act-Asked :
      (f : S → Option Certs) (e : Event A I S E) (s : Server A I S Certs E)
      → Spares id e
      → Tracked s
      → Asked s
      → Asked (act f e s)
  act-Asked f e s spares r (inl gone) = inl (act-Gone id f e s spares gone)
  act-Asked f e s spares r (inr h) = act-Asked_still f e s spares r h

  -- The calls of a handle that ask the connection.
  pub triggers-Asked : (s : Server A I S Certs E) → Asked (Server.trigger_shutdown s)
  unfolding token Server.trigger_shutdown
  triggers-Asked s = inr (token_or-true (lookup id s.connections))

  pub closes-Asked : (s : Server A I S Certs E) → Asked (Server.close_connection id s)
  unfolding token Server.close_connection
  closes-Asked s = elim (close_at-asks id s.cancelled s.connections) [
    | inl h ↦ inl (Absent-close_at id id s.connections h)
    | inr h ↦ inr h
  ]
