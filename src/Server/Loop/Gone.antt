-- ===== src/Server/Loop/Gone.antt =====
-- A connection that is gone comes back only if a new one is given its id.
use sui_http.Prelude.{
  ℕ, ◌+◌, ◌≢◌, sym, subst, leb, is_empty, Option, none, some, List, [], ◌∷◌, Run, done, panic, ok,
  err, Bool-cases, inl, inr,
}
use sui_http.Connection.Info.{ConnectionId, ConnectionInfo}
use sui_http.Connection.Registry
use sui_http.Connection.Registry.{keys, remove, erase, Absent, keys-remove, Absent-erase}
use sui_http.Server
use sui_http.Server.{
  Server, Phase, serving, aborting, draining, forcing, stopped, crashed, close_at,
  connection_shutdown_grace_period,
}
use sui_http.Server.Io.{ServerIo, io, tls_io}
use sui_http.Server.Tasks.{Handshake, spawned, handshaking, shaken, Handler, in_progress, ended}
use sui_http.Server.Incoming.{dropped, shakes, served, handle_incomming-Incoming}
use sui_http.Server.Drain.{
  unjoined, unreaped, abort_handshakes, abort_handlers, graceful_shutdown, poll_in, poll_shutdown,
}
use sui_http.Server.Loop.{
  Branch, token_cancelled, accept, join_pending, join_handler, Event, selects, wakes, handler_ends,
  triggers, closes, on_pending, on_joined, select, select_in, act,
}

pub Absent-remove :
    {V : Type 0} (id j : ConnectionId) (m : List (ConnectionId × V))
    → Absent id (keys m)
    → Absent id (keys (remove j m))
Absent-remove id j m h = subst (Absent id) (sym (keys-remove j m)) (Absent-erase j id (keys m) h)

module _ {A Certs : Type 0} (id : ConnectionId) where
  pub Absent-close_at :
      (j : ConnectionId) (m : List (ConnectionId × ConnectionInfo A Certs))
      → Absent id (keys m)
      → Absent id (keys (close_at j m))
  unfolding close_at
  Absent-close_at j [] h = tt
  Absent-close_at j ((k, c) ∷ m) (h, hs) = (h, Absent-close_at j m hs)

-- No new connection is given the id.
abbrev pub SparesAt : {A I : Type 0} → ConnectionId → Branch A I → Type 0
SparesAt id (accept j now stream remote_addr) = j ≢ id
SparesAt id (join_pending j now k) = j ≢ id
SparesAt id _ = Unit

abbrev pub Spares : {A I S E : Type 0} → ConnectionId → Event A I S E → Type 0
Spares id (selects b) = SparesAt id b
Spares id _ = Unit

module _ {A I S Certs E : Type 0} (id : ConnectionId) where
  -- The connection `id` is not listed.
  abbrev pub Gone : Server A I S Certs E → Type 0
  Gone s = Absent id (keys s.connections)

  handle_connection-Gone :
      (f : S → Option Certs) (j : ConnectionId) (now : ℕ) (stream : ServerIo I S) (remote_addr : A)
      (s : Server A I S Certs E)
      → j ≢ id
      → Gone s
      → Gone (Server.handle_connection f j now stream remote_addr s)
  unfolding Server.handle_connection Registry.insert
  handle_connection-Gone f j now stream remote_addr s other h =
      (other, Absent-remove id j s.connections h)

  handle_incomming-Gone :
      (f : S → Option Certs) (j : ConnectionId) (now : ℕ) (stream : I) (remote_addr : A)
      (s : Server A I S Certs E)
      → j ≢ id
      → Gone s
      → Gone (Server.handle_incomming f j now stream remote_addr s)
  unfolding Server.spawn_handshake
  handle_incomming-Gone f j now stream remote_addr s other h =
      elim (handle_incomming-Incoming f j now stream remote_addr s) [
        | dropped q ↦ subst Gone (sym q) h
        | shakes e l q ↦ subst Gone (sym q) h
        | served e q ↦
            subst Gone (sym q) (handle_connection-Gone f j now (io stream) remote_addr s other h)
      ]

  on_pending-Gone :
      (f : S → Option Certs) (j : ConnectionId) (now : ℕ)
      (o : Option (Handshake A I S E × List (Handshake A I S E))) (s : Server A I S Certs E)
      → j ≢ id
      → Gone s
      → Gone (on_pending f j now o s)
  unfolding on_pending Server.on_handshake Server.unwind
  on_pending-Gone f j now none s other h = h
  on_pending-Gone f j now (some (spawned stream remote_addr timeout, rest)) s other h = h
  on_pending-Gone f j now (some (handshaking stream remote_addr deadline, rest)) s other h = h
  on_pending-Gone f j now (some (shaken remote_addr (done (err e)), rest)) s other h = h
  on_pending-Gone f j now (some (shaken remote_addr (done (ok stream)), rest)) s other h =
      handle_connection-Gone f j now (tls_io stream) remote_addr
        (record s { pending_connections = rest }) other h
  on_pending-Gone f j now (some (shaken remote_addr panic, rest)) s other h = h

  on_joined-Gone :
      (f : S → Option Certs) (o : Option (Handler A Certs × List (Handler A Certs)))
      (s : Server A I S Certs E)
      → Gone s
      → Gone (on_joined f o s)
  unfolding on_joined Server.on_handler Server.unwind
  on_joined-Gone f none s h = h
  on_joined-Gone f (some (in_progress w, rest)) s h = h
  on_joined-Gone f (some (ended (done u), rest)) s h = h
  on_joined-Gone f (some (ended panic, rest)) s h = h

  select-Gone :
      (f : S → Option Certs) (b : Branch A I) (s : Server A I S Certs E)
      → SparesAt id b
      → Gone s
      → Gone (select f b s)
  unfolding select Server.begin_shutdown
  select-Gone f token_cancelled s spares h = elim (Bool-cases s.cancelled) [
    | inl e ↦ rw e h
    | inr e ↦ rw e h
  ]
  select-Gone f (accept j now stream remote_addr) s spares h =
      handle_incomming-Gone f j now stream remote_addr s spares h
  select-Gone f (join_pending j now k) s spares h = on_pending-Gone f j now _ s spares h
  select-Gone f (join_handler k) s spares h = on_joined-Gone f _ s h

  select_in-Gone :
      (f : S → Option Certs) (ph : Phase) (b : Branch A I) (s : Server A I S Certs E)
      → SparesAt id b
      → Gone s
      → Gone (select_in f ph b s)
  unfolding select_in
  select_in-Gone f serving b s spares h = select-Gone f b s spares h
  select_in-Gone f aborting b s spares h = h
  select_in-Gone f forcing b s spares h = h
  select_in-Gone f (draining deadline) b s spares h = h
  select_in-Gone f stopped b s spares h = h
  select_in-Gone f crashed b s spares h = h

  graceful_shutdown-Gone :
      (deadline now : ℕ) (s : Server A I S Certs E)
      → Gone s
      → Gone (graceful_shutdown deadline now s)
  unfolding graceful_shutdown Server.join Server.finish_shutdown Server.force_shutdown
  graceful_shutdown-Gone deadline now s h =
      elim (Bool-cases (is_empty (unjoined s.connection_handlers))) [
        | inl e ↦ rw e h
        | inr e ↦ elim (Bool-cases (leb deadline now)) [ inl l ↦ rw (e, l) h | inr l ↦ rw (e, l) h ]
      ]

  abort_handshakes-Gone :
      (now : ℕ) (s : Server A I S Certs E) → Gone s → Gone (abort_handshakes now s)
  unfolding abort_handshakes Server.reap Server.start_grace
  abort_handshakes-Gone now s h =
      let s' = Server.start_grace now (Server.reap (unreaped s.pending_connections) s) in
      let deadline = now + connection_shutdown_grace_period in
      elim (Bool-cases (is_empty (unreaped s.pending_connections))) [
        | inl e ↦ rw e (graceful_shutdown-Gone deadline now s' h)
        | inr e ↦ rw e h
      ]

  abort_handlers-Gone : (s : Server A I S Certs E) → Gone s → Gone (abort_handlers s)
  unfolding abort_handlers Server.join Server.finish_shutdown
  abort_handlers-Gone s h = elim (Bool-cases (is_empty (unjoined s.connection_handlers))) [
    | inl e ↦ rw e h
    | inr e ↦ rw e h
  ]

  poll_in-Gone :
      (ph : Phase) (now : ℕ) (s : Server A I S Certs E) → Gone s → Gone (poll_in ph now s)
  unfolding poll_in
  poll_in-Gone serving now s h = h
  poll_in-Gone aborting now s h = abort_handshakes-Gone now s h
  poll_in-Gone forcing now s h = abort_handlers-Gone s h
  poll_in-Gone (draining deadline) now s h = graceful_shutdown-Gone deadline now s h
  poll_in-Gone stopped now s h = h
  poll_in-Gone crashed now s h = h

  pub end_handler-Gone :
      (j : ConnectionId) (r : Run (Unit {0})) (s : Server A I S Certs E)
      → Gone s
      → Gone (Server.end_handler j r s)
  unfolding Server.end_handler Registry.drop
  end_handler-Gone j r s h = Absent-remove id j s.connections h

  pub act-Gone :
      (f : S → Option Certs) (e : Event A I S E) (s : Server A I S Certs E)
      → Spares id e
      → Gone s
      → Gone (act f e s)
  unfolding act poll_shutdown Server.shake Server.trigger_shutdown Server.close_connection
  act-Gone f (selects b) s spares h = select_in-Gone f s.phase b s spares h
  act-Gone f (wakes now) s spares h = poll_in-Gone s.phase now s h
  act-Gone f (Event.shakes k now p) s spares h = h
  act-Gone f (handler_ends j r) s spares h = end_handler-Gone j r s h
  act-Gone f triggers s spares h = h
  act-Gone f (closes j) s spares h = Absent-close_at id j s.connections h
