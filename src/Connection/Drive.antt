-- ===== src/Connection/Drive.antt =====
-- src/connection_handler.rs, `drive_connection`. What the environment does in one wake-up of the
-- task is a `Wake`: the time, whether the token is cancelled, and for each round of the loop the
-- result of polling the connection and the branch that `select!` happens to poll first.
pub mod Turns
pub mod Rounds
pub mod Shutdowns
pub mod Lifetime
pub mod Unforced
use sui_http.Prelude.{
  ℕ, zero, suc, ◌+◌, Bool, true, false, not, Option, none, some, List, [], ◌∷◌, Result, Poll, ready,
  pending, Duration, if◌then◌else◌,
}
use sui_http.Fuse
use sui_http.Fuse.{Fuse}
use sui_http.Connection.Sleep.{Sleep, sleep_or_pending, poll_sleep}

pub data Branch : Type 0 where
  signal connection timer : Branch

-- `select!` polls its branches in cyclic order, from a random one on.
abbrev pub order_from : Branch → List Branch
order_from signal = signal ∷ connection ∷ timer ∷ []
order_from connection = connection ∷ timer ∷ signal ∷ []
order_from timer = timer ∷ signal ∷ connection ∷ []

pub record Wake (E : Type 0) : Type 0 where
  pub now : ℕ
  pub cancelled : Bool
  pub conn : ℕ → Poll (Result (Unit {0}) E)
  pub first : ℕ → Branch

-- The local variables; `shutdowns` counts the calls of `conn.graceful_shutdown()`.
pub record Drive : Type 0 where
  pub sig : Fuse (Unit {0})
  pub sleep : Sleep
  pub in_grace_period : Bool
  pub shutdowns : ℕ

-- Why the loop ended: the connection's future resolved, or the grace period expired.
pub data Outcome (E : Type 0) : Type 0 where
  finished : Result (Unit {0}) E → Outcome E
  grace_expired : Outcome E

pub data Turn (E : Type 0) : Type 0 where
  again : Drive → Turn E
  suspended : Drive → Turn E
  closed : Drive → Outcome E → Turn E

unfoldable pub start : Option Duration → Drive
start max_connection_age = record {
  sig = Fuse.new tt;
  sleep = sleep_or_pending max_connection_age;
  in_grace_period = false;
  shutdowns = 0;
}

-- The token's `cancelled_owned` future.
abbrev pub poll_cancelled : Bool → Unit {0} → Poll (Unit {0}) × Unit {0}
poll_cancelled true t = (ready tt, t)
poll_cancelled false t = (pending, t)

abbrev pub graceful_shutdown : Drive → Drive
graceful_shutdown d = record d { shutdowns = suc d.shutdowns }

module _ (max_connection_age_grace : Option Duration) where
  abbrev pub enter_grace : Drive → Drive
  enter_grace d = record d {
    in_grace_period = true;
    sleep = sleep_or_pending max_connection_age_grace;
  }

  unfoldable pub on_signal : Drive → Drive
  on_signal d = let d' = graceful_shutdown d in if not d.in_grace_period then enter_grace d' else d'

module _ {E : Type 0} (max_connection_age_grace : Option Duration) where
  unfoldable pub on_sleep : Drive → Turn E
  on_sleep d =
      if d.in_grace_period
      then closed d grace_expired
      else again (enter_grace max_connection_age_grace (graceful_shutdown d))

  -- One `select!`, with the branches still to poll.
  unfoldable pub select : Wake E → Poll (Result (Unit {0}) E) → List Branch → Drive → Turn E
  select w conn [] d = suspended d
  select w conn (signal ∷ bs) d =
      let (cancelled, sig') = Fuse.poll (poll_cancelled w.cancelled) d.sig in
      let d' : Drive = record d { sig = sig' } in
      elim cancelled [
        | ready _ ↦ again (on_signal max_connection_age_grace d')
        | pending ↦ select w conn bs d'
      ]
  select w conn (connection ∷ bs) d = elim conn [
    | ready rv ↦ closed d (finished rv)
    | pending ↦ select w conn bs d
  ]
  select w conn (timer ∷ bs) d =
      let (over, sleep') = poll_sleep w.now d.sleep in
      let d' : Drive = record d { sleep = sleep' } in
      elim over [ true ↦ on_sleep d' | false ↦ select w conn bs d' ]

  -- The rounds of the loop within one wake-up; `again` at the end means that the fuel ran out.
  unfoldable pub rounds : ℕ → Wake E → ℕ → Drive → Turn E
  rounds zero w i d = again d
  rounds (suc fuel) w i d = elim (select w (w.conn i) (order_from (w.first i)) d) [
    | again d' ↦ rounds fuel w (suc i) d'
    | suspended d' ↦ suspended d'
    | closed d' o ↦ closed d' o
  ]

  unfoldable pub wake_up : Wake E → Drive → Turn E
  wake_up w d = rounds 3 w 0 d

  unfoldable pub drive : List (Wake E) → Drive → Turn E
  drive [] d = suspended d
  drive (w ∷ ws) d = elim (wake_up w d) [
    | again d' ↦ again d'
    | suspended d' ↦ drive ws d'
    | closed d' o ↦ closed d' o
  ]

  -- `drive_connection` from its start.
  unfoldable pub drive_connection : Option Duration → List (Wake E) → Turn E
  drive_connection max_connection_age ws = drive ws (start max_connection_age)
