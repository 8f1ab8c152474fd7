-- ===== src/System/Known.antt =====
-- What is known of the task of one connection, whatever else happens in the system.
use sui_http.Prelude.{
  ℕ, ◌≡◌, ◌≢◌, ◌⊎◌, refl, sym, ◌∙◌, subst, ◌==◌, ==_iff, Option, none, some, List, [], ◌∷◌, Run,
  done, panic, arith, Bool-cases, inl, inr,
}
use sui_http.Connection.Info.{ConnectionId}
use sui_http.Connection.Registry
use sui_http.Connection.Registry.{lookup, remove, keys, Absent, Distinct}
use sui_http.Connection.Drive.{Wake, Drive, Turn, again, suspended, closed}
use sui_http.Connection.Drive.Rounds.{Ends}
use sui_http.Server
use sui_http.Server.{Server}
use sui_http.Server.Tasks.{Work}
use sui_http.Server.Loop
use sui_http.Server.Loop.Gone.{Gone, SparesAt, Spares, act-Gone, end_handler-Gone}
use sui_http.System.{
  System, Happening, selects, awaits, shakes, triggers, closes, wakes, panics, end_task, leave,
  on_turn, poll_task, panic_task, serve,
}

module _ {V : Type 0} where
  pub lookup-remove_other :
      (id j : ConnectionId) (m : List (ConnectionId × V))
      → j ≢ id
      → lookup id (remove j m) ≡ lookup id m
  unfolding lookup remove
  lookup-remove_other id j [] other = refl
  lookup-remove_other id j ((k, v) ∷ m) other = ground (arith, lookup-remove_other id j m other)

  pub lookup-insert_other :
      (id j : ConnectionId) (v : V) (m : List (ConnectionId × V))
      → j ≢ id
      → lookup id (Registry.insert j v m) ≡ lookup id m
  unfolding lookup Registry.insert
  lookup-insert_other id j v m other = ground (arith, lookup-remove_other id j m other)

  lookup-insert :
      (id : ConnectionId) (v : V) (m : List (ConnectionId × V))
      → lookup id (Registry.insert id v m) ≡ some v
  unfolding lookup Registry.insert
  lookup-insert id v m = ground arith

  pub Absent-removed :
      (id : ConnectionId) (m : List (ConnectionId × V))
      → Distinct (keys m)
      → Absent id (keys (remove id m))
  unfolding remove
  Absent-removed id [] d = tt
  Absent-removed id ((k, v) ∷ m) (h, d) = elim (Bool-cases (k == id)) [
    | inl same ↦ rw same (subst (λ j. Absent j (keys m)) ((==_iff k id).0 same) h)
    | inr other ↦ rw other ((ground arith), Absent-removed id m d)
  ]

-- No new connection is given the id.
abbrev pub SparesId : {A I S E H : Type 0} → ConnectionId → Happening A I S E H → Type 0
SparesId id (selects b) = SparesAt id b
SparesId id _ = Unit

-- The times at which tasks are polled.
abbrev pub InTime : {A I S E H : Type 0} → (ℕ → Type 0) → Happening A I S E H → Type 0
InTime C (wakes j now conn first) = C now
InTime C _ = Unit

pub InTime-any : {A I S E H : Type 0} (h : Happening A I S E H) → InTime (λ _. Unit {0}) h
InTime-any (selects b) = tt
InTime-any (awaits now) = tt
InTime-any (shakes k now p) = tt
InTime-any triggers = tt
InTime-any (closes id) = tt
InTime-any (wakes id now conn first) = tt
InTime-any (panics id) = tt

module _ {A I S Certs E : Type 0} (id : ConnectionId) where
  on_turn-Gone :
      {H : Type 0} (j : ConnectionId) (t : Turn H) (y : System A I S Certs E)
      → Gone id y.server
      → Gone id (on_turn j t y).server
  unfolding on_turn leave end_task
  on_turn-Gone j (again d) y h = h
  on_turn-Gone j (suspended d) y h = h
  on_turn-Gone j (closed d o) y h = end_handler-Gone id j (done tt) y.server h

  pub poll_task-Gone :
      {H : Type 0} (j : ConnectionId) (w : Wake H) (o : Option (Work A Certs))
      (y : System A I S Certs E)
      → Gone id y.server
      → Gone id (poll_task j w o y).server
  unfolding poll_task
  poll_task-Gone j w none y h = h
  poll_task-Gone j w (some work) y h = on_turn-Gone j _ y h

  end_task-Gone :
      (r : Run (Unit {0})) (y : System A I S Certs E)
      → Distinct (keys y.server.connections)
      → Gone id (end_task id r y).server
  unfolding end_task Server.end_handler Registry.drop
  end_task-Gone r y d = Absent-removed id y.server.connections d

module _ {A I S Certs E : Type 0} (P : Drive → Type 0) (id : ConnectionId) where
  -- The connection is gone, or its task was left in a state with `P`.
  abbrev pub Known : System A I S Certs E → Type 0
  Known y = Gone id y.server ⊎ ((d : Drive) × (lookup id y.drives ≡ some d) × P d)

  pub serve-Known :
      (f : S → Option Certs) (e : Loop.Event A I S E) (y : System A I S Certs E)
      → Spares id e
      → Known y
      → Known (serve f e y)
  unfolding serve
  serve-Known f e y spares (inl h) = inl (act-Gone id f e y.server spares h)
  serve-Known f e y spares (inr h) = inr h

  end_task-other :
      (j : ConnectionId) (r : Run (Unit {0})) (y : System A I S Certs E)
      → j ≢ id
      → Known y
      → Known (end_task j r y)
  unfolding end_task
  end_task-other j r y other (inl h) = inl (end_handler-Gone id j r y.server h)
  end_task-other j r y other (inr (d, e, p)) =
      inr (d, lookup-remove_other id j y.drives other ∙ e, p)

  leave-other :
      (j : ConnectionId) (d' : Drive) (y : System A I S Certs E)
      → j ≢ id
      → Known y
      → Known (leave j d' y)
  unfolding leave
  leave-other j d' y other (inl h) = inl h
  leave-other j d' y other (inr (d, e, p)) =
      inr (d, lookup-insert_other id j d' y.drives other ∙ e, p)

  on_turn-other :
      {H : Type 0} (j : ConnectionId) (t : Turn H) (y : System A I S Certs E)
      → j ≢ id
      → Known y
      → Known (on_turn j t y)
  unfolding on_turn
  on_turn-other j (again d) y other h = leave-other j d y other h
  on_turn-other j (suspended d) y other h = leave-other j d y other h
  on_turn-other j (closed d o) y other h = end_task-other j (done tt) y other h

  pub poll_task-other :
      {H : Type 0} (j : ConnectionId) (w : Wake H) (o : Option (Work A Certs))
      (y : System A I S Certs E)
      → j ≢ id
      → Known y
      → Known (poll_task j w o y)
  unfolding poll_task
  poll_task-other j w none y other h = h
  poll_task-other j w (some work) y other h = on_turn-other j _ y other h

  pub on_turn-Known :
      {H : Type 0} (t : Turn H) (y : System A I S Certs E)
      → Distinct (keys y.server.connections)
      → Ends P (λ _ _. Unit {0}) t
      → Known (on_turn id t y)
  unfolding on_turn leave
  on_turn-Known (again d) y distinct h = absurd h
  on_turn-Known (suspended d) y distinct h = inr (d, lookup-insert id d y.drives, h)
  on_turn-Known (closed d o) y distinct h = inl (end_task-Gone id (done tt) y distinct)

  pub panic_task-Known :
      (j : ConnectionId) (o : Option (Work A Certs)) (y : System A I S Certs E)
      → Distinct (keys y.server.connections)
      → Known y
      → Known (panic_task j o y)
  unfolding panic_task
  panic_task-Known j none y distinct h = h
  panic_task-Known j (some work) y distinct h = elim (Bool-cases (j == id)) [
    | inl same ↦ inl (
        subst (λ k. Gone id (end_task k panic y).server) (sym ((==_iff j id).0 same))
          (end_task-Gone id panic y distinct))
    | inr other ↦ end_task-other j panic y (ground arith) h
  ]
