-- ===== src/System/Everyone.antt =====
-- What every wake-up keeps holds of the tasks of all connections.
use sui_http.Prelude.{
  ℕ, ◌≡◌, refl, sym, subst, ◌==◌, Bool, Option, none, some, List, [], ◌∷◌, Run, done, panic,
  Duration, All, arith, Bool-cases, Option-cases, inl, inr,
}
use mathlib.Core.Option.{some-injective}
use sui_http.Config.{Config}
use sui_http.Connection.Info.{ConnectionId}
use sui_http.Connection.Registry
use sui_http.Connection.Registry.{lookup, remove}
use sui_http.Connection.Drive
use sui_http.Connection.Drive.{Wake, Drive, Turn, again, suspended, closed, wake_up}
use sui_http.Connection.Drive.Rounds.{Ends}
use sui_http.Server.Tasks.{Work}
use sui_http.System.{
  System, Happening, selects, awaits, shakes, triggers, closes, wakes, panics, drive_or, work_of,
  end_task, leave, on_turn, poll_task, panic_task, serve, happen, run,
}
use sui_http.System.Runs.{NewAll}
use sui_http.System.Works.{work_of-limits}
use sui_http.System.Known.{InTime}
use sui_http.System.Polls.{OnWay, happen-OnWay}

module _ {V : Type 0} (P : V → Type 0) where
  All-remove :
      (id : ConnectionId) (m : List (ConnectionId × V))
      → All (λ e. P e.1) m
      → All (λ e. P e.1) (remove id m)
  unfolding remove
  All-remove id [] h = tt
  All-remove id ((k, v) ∷ m) (h, hs) = elim (Bool-cases (k == id)) [
    | inl same ↦ rw same hs
    | inr other ↦ rw other (h, All-remove id m hs)
  ]

  All-lookup :
      (id : ConnectionId) (m : List (ConnectionId × V)) (v : V)
      → lookup id m ≡ some v
      → All (λ e. P e.1) m
      → P v
  unfolding lookup
  All-lookup id [] v e h = absurd (ground arith)
  All-lookup id ((k, u) ∷ m) v e (h, hs) = elim (Bool-cases (k == id)) [
    | inl same ↦ let there : some u ≡ some v = rw same at e in subst P (some-injective u v there) h
    | inr other ↦ let there : lookup id m ≡ some v = rw other at e in All-lookup id m v there hs
  ]

module _ {A I S Certs E : Type 0} (P : Drive → Type 0) where
  -- All tasks that have been polled were left in a state with `P`.
  abbrev pub Everyone : System A I S Certs E → Type 0
  Everyone y = All (λ e. P e.1) y.drives

  pub drive_or-Everyone :
      (id : ConnectionId) (age : Option Duration) (y : System A I S Certs E)
      → P (Drive.start age)
      → Everyone y
      → P (drive_or age (lookup id y.drives))
  drive_or-Everyone id age y new all = elim (Option-cases (lookup id y.drives)) [
    | inl e ↦ subst (λ o. P (drive_or age o)) (sym e) new
    | inr (d, e) ↦ subst (λ o. P (drive_or age o)) (sym e) (All-lookup P id y.drives d e all)
  ]

  leave-Everyone :
      (id : ConnectionId) (d : Drive) (y : System A I S Certs E)
      → P d
      → Everyone y
      → Everyone (leave id d y)
  unfolding leave Registry.insert
  leave-Everyone id d y h all = (h, All-remove P id y.drives all)

  end_task-Everyone :
      (id : ConnectionId) (r : Run (Unit {0})) (y : System A I S Certs E)
      → Everyone y
      → Everyone (end_task id r y)
  unfolding end_task
  end_task-Everyone id r y all = All-remove P id y.drives all

  on_turn-Everyone :
      {H : Type 0} (id : ConnectionId) (t : Turn H) (y : System A I S Certs E)
      → Ends P (λ _ _. Unit {0}) t
      → Everyone y
      → Everyone (on_turn id t y)
  unfolding on_turn
  on_turn-Everyone id (again d) y h all = absurd h
  on_turn-Everyone id (suspended d) y h all = leave-Everyone id d y h all
  on_turn-Everyone id (closed d o) y h all = end_task-Everyone id (done tt) y all

  panic_task-Everyone :
      (id : ConnectionId) (o : Option (Work A Certs)) (y : System A I S Certs E)
      → Everyone y
      → Everyone (panic_task id o y)
  unfolding panic_task
  panic_task-Everyone id none y all = all
  panic_task-Everyone id (some work) y all = end_task-Everyone id panic y all

module _ {A I S Certs E H : Type 0} (f : S → Option Certs) (config : Config) (tls : Bool)
    (local_addr : A) (P : Drive → Type 0) (C : ℕ → Type 0)
    (new : P (Drive.start config.max_connection_age))
    (keeps : (w : Wake H) (d : Drive)
      → C w.now
      → P d
      → Ends P (λ _ _. Unit {0}) (wake_up config.max_connection_age_grace w d)) where
  poll_task-Everyone :
      (id : ConnectionId) (w : Wake H) (o : Option (Work A Certs)) (y : System A I S Certs E)
      → OnWay f config tls local_addr y
      → work_of id y.server.connection_handlers ≡ o
      → C w.now
      → Everyone P y
      → Everyone P (poll_task id w o y)
  unfolding poll_task
  poll_task-Everyone id w none y r e c all = all
  poll_task-Everyone id w (some work) y r e c all =
      let (age, grace) = work_of-limits f config tls local_addr y.server r id work e in
      let here : P (drive_or work.max_connection_age (lookup id y.drives)) =
        drive_or-Everyone P id work.max_connection_age y
          (subst (λ a. P (Drive.start a)) (sym age) new) all in
      on_turn-Everyone P id _ y
        (subst
          (λ g.
            Ends P (λ _ _. Unit {0})
              (wake_up g w (drive_or work.max_connection_age (lookup id y.drives))))
          (sym grace) (keeps w _ c here))
        all

  happen-Everyone :
      (h : Happening A I S E H) (y : System A I S Certs E)
      → OnWay f config tls local_addr y
      → InTime C h
      → Everyone P y
      → Everyone P (happen f h y)
  unfolding happen serve
  happen-Everyone (selects b) y r c all = all
  happen-Everyone (awaits now) y r c all = all
  happen-Everyone (shakes k now p) y r c all = all
  happen-Everyone triggers y r c all = all
  happen-Everyone (closes id) y r c all = all
  happen-Everyone (wakes id now conn first) y r c all =
      poll_task-Everyone id _ (work_of id y.server.connection_handlers) y r refl c all
  happen-Everyone (panics id) y r c all = panic_task-Everyone P id _ y all

  pub run-Everyone :
      (hs : List (Happening A I S E H)) (y : System A I S Certs E)
      → OnWay f config tls local_addr y
      → NewAll f hs y
      → All (InTime C) hs
      → Everyone P y
      → Everyone P (run f hs y)
  unfolding run
  run-Everyone [] y r new_ c all = all
  run-Everyone (h ∷ hs) y r (n, fresh) (t, c) all =
      run-Everyone hs (happen f h y) (happen-OnWay f config tls local_addr h y n r) fresh c
        (happen-Everyone h y r t all)
