-- ===== src/System/Runs.antt =====
-- The server in the system of its tasks takes steps of `Step`, whatever happens.
use sui_http.Prelude.{◌≡◌, refl, Option, none, some, List, [], ◌∷◌, ◌++◌, done, panic}
use sui_http.Connection.Info.{ConnectionId}
use sui_http.Connection.Drive.{Wake, Turn, again, suspended, closed}
use sui_http.Server.Tasks.{Work}
use sui_http.Server.Steps.{handler_ended, Reaches, here, step}
use sui_http.Server.Loop
use sui_http.Server.Loop.{Event, act, IsFresh}
use sui_http.Server.Loop.Reaching.{act-Reaches}
use sui_http.System
use sui_http.System.{
  System, Happening, selects, awaits, shakes, triggers, closes, wakes, panics, drive_or, token,
  work_of, end_task, leave, on_turn, poll_task, panic_task, serve, happen,
}

module _ {A I S Certs E H : Type 0} where
  -- Data that is just allocated is not that of a listed connection.
  abbrev pub IsNew : Happening A I S E H → System A I S Certs E → Type 0
  IsNew (selects b) y = IsFresh {E = E} (Loop.selects b) y.server
  IsNew _ y = Unit

module _ {A I S Certs E H : Type 0} (f : S → Option Certs) where
  -- At each happening on the way.
  abbrev pub NewAll : List (Happening A I S E H) → System A I S Certs E → Type 0
  NewAll [] y = Unit
  NewAll (h ∷ hs) y = IsNew h y × NewAll hs (happen f h y)

module _ {A I S Certs E : Type 0} (f : S → Option Certs) where
  turn-Reaches :
      {H : Type 0} (id : ConnectionId) (t : Turn H) (y : System A I S Certs E)
      → Reaches f y.server (on_turn id t y).server
  unfolding on_turn leave end_task
  turn-Reaches id (again d) y = here
  turn-Reaches id (suspended d) y = here
  turn-Reaches id (closed d o) y = step here (handler_ended id (done tt) refl)

  poll-Reaches :
      {H : Type 0} (id : ConnectionId) (w : Wake H) (o : Option (Work A Certs))
      (y : System A I S Certs E)
      → Reaches f y.server (poll_task id w o y).server
  unfolding poll_task
  poll-Reaches id w none y = here
  poll-Reaches id w (some work) y = turn-Reaches id _ y

  panic-Reaches :
      (id : ConnectionId) (o : Option (Work A Certs)) (y : System A I S Certs E)
      → Reaches f y.server (panic_task id o y).server
  unfolding panic_task end_task
  panic-Reaches id none y = here
  panic-Reaches id (some work) y = step here (handler_ended id panic refl)

module _ {A I S Certs E H : Type 0} (f : S → Option Certs) where
  pub happen-Reaches :
      (h : Happening A I S E H) (y : System A I S Certs E)
      → IsNew h y
      → Reaches f y.server (happen f h y).server
  unfolding happen serve
  happen-Reaches (selects b) y new = act-Reaches f (Loop.selects b) y.server new
  happen-Reaches (awaits now) y new = act-Reaches f (Loop.wakes now) y.server tt
  happen-Reaches (shakes k now p) y new = act-Reaches f (Loop.shakes k now p) y.server tt
  happen-Reaches triggers y new = act-Reaches f Loop.triggers y.server tt
  happen-Reaches (closes id) y new = act-Reaches f (Loop.closes id) y.server tt
  happen-Reaches (wakes id now conn first) y new =
      poll-Reaches f id _ (work_of id y.server.connection_handlers) y
  happen-Reaches (panics id) y new = panic-Reaches f id (work_of id y.server.connection_handlers) y

  pub run-happenings :
      (hs ks : List (Happening A I S E H)) (y : System A I S Certs E)
      → System.run f (hs ++ ks) y ≡ System.run f ks (System.run f hs y)
  unfolding System.run
  run-happenings [] ks y = refl
  run-happenings (h ∷ hs) ks y = run-happenings hs ks (happen f h y)

  pub NewAll-parts :
      (hs ks : List (Happening A I S E H)) (y : System A I S Certs E)
      → NewAll f (hs ++ ks) y
      → NewAll f hs y × NewAll f ks (System.run f hs y)
  unfolding System.run
  NewAll-parts [] ks y new = (tt, new)
  NewAll-parts (h ∷ hs) ks y (n, new) =
      let (left, right) = NewAll-parts hs ks (happen f h y) new in ((n, left), right)
