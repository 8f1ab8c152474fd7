-- ===== src/System/Removes/Closed.antt =====
-- A connection that a handle closes, or that is there when a handle triggers the shutdown.
use sui_http.Prelude.{
  ℕ, ◌+◌, ◌≤◌, ◌≡◌, sym, subst, Bool, Option, none, some, List, [], ◌∷◌, ◌++◌, Result, Run, done,
  panic, Poll, Duration, All, All-append, inl, inr,
}
use sui_http.Config.{Config}
use sui_http.Connection.Info.{ConnectionId}
use sui_http.Connection.Drive
use sui_http.Connection.Drive.{Wake, Turn, again, suspended, closed}
use sui_http.Server
use sui_http.Server.Tasks.{Work}
use sui_http.Server.Steps.{here}
use sui_http.Server.Loop
use sui_http.Server.Loop.{act}
use sui_http.Server.Tracked.{Tracked, Reaches-Tracked}
use sui_http.Server.Loop.Gone.{Gone, end_handler-Gone}
use sui_http.System
use sui_http.System.{
  System, Happening, selects, awaits, shakes, triggers, closes, wakes, panics, token, work_of,
  end_task, leave, on_turn, poll_task, panic_task, serve, happen, run,
}
use sui_http.System.Runs.{NewAll, run-happenings, NewAll-parts}
use sui_http.System.Known.{SparesId, InTime}
use sui_http.System.Polls.{OnWay, happen-OnWay, run-OnWay, run-Gone}
use sui_http.System.Asks.{Asked, act-Asked, end_handler-Asked, triggers-Asked, closes-Asked}
use sui_http.System.Removes.Asked.{asked-Gone}

-- The handle asks the connection `id` to shut down.
abbrev pub Asks : {A I S E H : Type 0} → ConnectionId → Happening A I S E H → Type 0
Asks id (closes j) = j ≡ id
Asks id triggers = Unit
Asks id _ = ⊥

module _ {A I S Certs E : Type 0} (id : ConnectionId) where
  -- `Asked` of the server in the system.
  abbrev AskedIn : System A I S Certs E → Type 0
  AskedIn y = Asked id y.server

  end_task-Asked :
      (j : ConnectionId) (r : Run (Unit {0})) (y : System A I S Certs E)
      → Tracked y.server
      → AskedIn y
      → AskedIn (end_task j r y)
  unfolding end_task
  end_task-Asked j r y t (inl gone) = inl (end_handler-Gone id j r y.server gone)
  end_task-Asked j r y t (inr h) = end_handler-Asked id j r y.server t h

  on_turn-Asked :
      {H : Type 0} (j : ConnectionId) (t : Turn H) (y : System A I S Certs E)
      → Tracked y.server
      → AskedIn y
      → AskedIn (on_turn j t y)
  unfolding on_turn leave
  on_turn-Asked j (again d) y t h = h
  on_turn-Asked j (suspended d) y t h = h
  on_turn-Asked j (closed d o) y t h = end_task-Asked j (done tt) y t h

  poll_task-Asked :
      {H : Type 0} (j : ConnectionId) (w : Wake H) (o : Option (Work A Certs))
      (y : System A I S Certs E)
      → Tracked y.server
      → AskedIn y
      → AskedIn (poll_task j w o y)
  unfolding poll_task
  poll_task-Asked j w none y t h = h
  poll_task-Asked j w (some work) y t h = on_turn-Asked j _ y t h

  panic_task-Asked :
      (j : ConnectionId) (o : Option (Work A Certs)) (y : System A I S Certs E)
      → Tracked y.server
      → AskedIn y
      → AskedIn (panic_task j o y)
  unfolding panic_task
  panic_task-Asked j none y t h = h
  panic_task-Asked j (some work) y t h = end_task-Asked j panic y t h

module _ {A I S Certs E H : Type 0} (f : S → Option Certs) (id : ConnectionId) where
  happen-Asked :
      (h : Happening A I S E H) (y : System A I S Certs E)
      → Tracked y.server
      → SparesId id h
      → AskedIn id y
      → AskedIn id (happen f h y)
  unfolding happen serve
  happen-Asked (selects b) y t spares k = act-Asked id f (Loop.selects b) y.server spares t k
  happen-Asked (awaits now) y t spares k = act-Asked id f (Loop.wakes now) y.server tt t k
  happen-Asked (shakes j now p) y t spares k = act-Asked id f (Loop.shakes j now p) y.server tt t k
  happen-Asked triggers y t spares k = act-Asked id f Loop.triggers y.server tt t k
  happen-Asked (closes j) y t spares k = act-Asked id f (Loop.closes j) y.server tt t k
  happen-Asked (wakes j now conn first) y t spares k = poll_task-Asked id j _ _ y t k
  happen-Asked (panics j) y t spares k = panic_task-Asked id j _ y t k

  -- The call itself.
  Asks-Asked :
      (h : Happening A I S E H) (y : System A I S Certs E) → Asks id h → AskedIn id (happen f h y)
  unfolding happen serve act
  Asks-Asked triggers y a = triggers-Asked id y.server
  Asks-Asked (closes j) y a =
      subst (λ k. Asked id (Server.close_connection k y.server)) (sym a) (closes-Asked id y.server)
  Asks-Asked (selects b) y a = absurd a
  Asks-Asked (awaits now) y a = absurd a
  Asks-Asked (shakes j now p) y a = absurd a
  Asks-Asked (wakes j now conn first) y a = absurd a
  Asks-Asked (panics j) y a = absurd a

  module _ (config : Config) (tls : Bool) (local_addr : A) where
    run-Asked :
        (hs : List (Happening A I S E H)) (y : System A I S Certs E)
        → OnWay f config tls local_addr y
        → NewAll f hs y
        → All (SparesId id) hs
        → AskedIn id y
        → AskedIn id (run f hs y)
    unfolding run
    run-Asked [] y r new spares k = k
    run-Asked (h ∷ hs) y r (n, new) (s, spares) k =
        run-Asked hs (happen f h y) (happen-OnWay f config tls local_addr h y n r) new spares
          (happen-Asked h y (Reaches-Tracked f config tls local_addr y.server r) s k)

-- A server with the tasks of its connections, whose configuration has a grace period `g`, from its
-- start, with anything happening to them, the data of a new connection never that of a listed one.
-- If a handle closes a connection, or triggers the shutdown, and after that its task is polled at
-- `t₁`, no task was polled later before, and again at `t₂`, at least `g` later, then `connections`
-- has no entry for it from then on, as long as no new connection is given its id: whatever its peer
-- does, and whatever happens before, in between and afterwards.
pub closed-Gone :
    {A I S Certs E H : Type 0} (f : S → Option Certs) (config : Config) (tls : Bool)
    (local_addr : A) (id : ConnectionId) (g : Duration) (hs₀ : List (Happening A I S E H))
    (ask : Happening A I S E H) (hs₁ : List (Happening A I S E H)) (t₁ : ℕ)
    (conn₁ : ℕ → Poll (Result (Unit {0}) H)) (first₁ : ℕ → Drive.Branch)
    (hs₂ : List (Happening A I S E H)) (t₂ : ℕ) (conn₂ : ℕ → Poll (Result (Unit {0}) H))
    (first₂ : ℕ → Drive.Branch) (hs₃ : List (Happening A I S E H))
    → let y : System A I S Certs E = System.start (Server.start config tls local_addr) in
      let before = hs₀ ++ (ask ∷ hs₁) in
      let hs = before ++ (wakes id t₁ conn₁ first₁ ∷ hs₂ ++ wakes id t₂ conn₂ first₂ ∷ hs₃) in
      config.max_connection_age_grace ≡ some g
      → NewAll f hs y
      → Asks id ask
      → All (InTime (λ t. t ≤ t₁)) before
      → t₁ + g ≤ t₂
      → All (SparesId id) hs₁
      → All (SparesId id) hs₂
      → All (SparesId id) hs₃
      → Gone id (run f hs y).server
unfolding System.start run
closed-Gone {A} {I} {S} {Certs} {E} {H} f config tls local_addr id g hs₀ ask hs₁ t₁ conn₁ first₁ hs₂
      t₂ conn₂ first₂ hs₃ limited fresh asks early late spares₁ spares₂ spares₃ =
    let y : System A I S Certs E = System.start (Server.start config tls local_addr) in
    let before : List (Happening A I S E H) = hs₀ ++ (ask ∷ hs₁) in
    let end : List (Happening A I S E H) = wakes id t₂ conn₂ first₂ ∷ hs₃ in
    let rest : List (Happening A I S E H) = wakes id t₁ conn₁ first₁ ∷ hs₂ ++ end in
    let (fresh₀, fresh₁) = NewAll-parts f before rest y fresh in
    let (newest₀, newest₁) = NewAll-parts f hs₀ (ask ∷ hs₁) y fresh₀ in
    let mid = run f hs₀ y in
    let r = run-OnWay f config tls local_addr hs₀ y newest₀ here in
    let asked : Asked id (run f before y).server =
      subst (λ z. Asked id z.server) (sym (run-happenings f hs₀ (ask ∷ hs₁) y))
        (run-Asked f id config tls local_addr hs₁ (happen f ask mid)
          (happen-OnWay f config tls local_addr ask mid newest₁.0 r) newest₁.1 spares₁
          (Asks-Asked f id ask mid asks)) in
    elim asked [
      | inr token_set ↦
          asked-Gone f config tls local_addr id g before t₁ conn₁ first₁ hs₂ t₂ conn₂ first₂ hs₃
            limited fresh early token_set late spares₂ spares₃
      | inl gone ↦
          subst (λ z. Gone id z.server) (sym (run-happenings f before rest y))
            (run-Gone f config tls local_addr id rest (run f before y)
              (run-OnWay f config tls local_addr before y fresh₀ here) fresh₁
              (tt, All-append (SparesId id) hs₂ end spares₂ (tt, spares₃)) gone)
    ]
