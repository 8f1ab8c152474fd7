-- ===== src/Connection/Graceful.antt =====
-- src/connection_handler.rs, the trait `GracefulConnection` and `drive_connection` over a connection
-- with a state of its own, which a poll and `graceful_shutdown` change. What the peer does by then
-- is the input of a poll.
pub mod Turns
pub mod Sees
pub mod Ends
pub mod Told
pub mod Prompt
use sui_http.Prelude.{
  ℕ, zero, suc, Bool, true, false, Option, none, some, List, [], ◌∷◌, Result, Poll, ready, pending,
  Duration, if◌then◌else◌,
}
use sui_http.Fuse
use sui_http.Fuse.{Fuse}
use sui_http.Connection.Sleep.{poll_sleep}
use sui_http.Connection.Drive
use sui_http.Connection.Drive.{
  Branch, signal, connection, timer, order_from, Drive, finished, Turn, again, suspended, closed,
  poll_cancelled, on_signal, on_sleep,
}

-- hyper-util's two connections implement it by their own methods of these names.
pub record GracefulConnection (C In E : Type 0) : Type 0 where
  pub poll : In → C → Poll (Result (Unit {0}) E) × C
  pub graceful_shutdown : C → C

-- `impl GracefulConnection for auto::Connection`, and for `auto::UpgradeableConnection`: the future's
-- own poll, and the method of the type.
module _ {C In E : Type 0} (poll_connection : In → C → Poll (Result (Unit {0}) E) × C)
    (auto_graceful_shutdown : C → C) where
  unfoldable pub plain_connection : GracefulConnection C In E
  plain_connection = record { poll = poll_connection; graceful_shutdown = auto_graceful_shutdown }

  unfoldable pub upgradeable_connection : GracefulConnection C In E
  upgradeable_connection = record {
    poll = poll_connection;
    graceful_shutdown = auto_graceful_shutdown;
  }

-- A wake-up of the task: the time, whether the token is cancelled, what has come from the peer, and
-- the branch that each round polls first.
pub record Visit (In : Type 0) : Type 0 where
  pub now : ℕ
  pub cancelled : Bool
  pub input : In
  pub first : ℕ → Branch

module _ {C In E : Type 0} (conn : GracefulConnection C In E)
    (max_connection_age_grace : Option Duration) where
  -- The timer's branch shuts the connection down unless it ends the loop.
  abbrev pub told_by : Turn E → C → C
  told_by (again d) c = conn.graceful_shutdown c
  told_by (suspended d) c = c
  told_by (closed d o) c = c

  unfoldable pub select : Visit In → List Branch → Drive → C → Turn E × C
  unfolding on_signal on_sleep
  select v [] d c = (suspended d, c)
  select v (signal ∷ bs) d c =
      let (cancelled, sig') = Fuse.poll (poll_cancelled v.cancelled) d.sig in
      let d' : Drive = record d { sig = sig' } in
      let rest = select v bs d' c in
      elim cancelled [
        | ready _ ↦ (again (on_signal max_connection_age_grace d'), conn.graceful_shutdown c)
        | pending ↦ rest
      ]
  select v (connection ∷ bs) d c =
      let (result, c') = conn.poll v.input c in
      let rest = select v bs d c' in
      elim result [ ready rv ↦ (closed d (finished rv), c') | pending ↦ rest ]
  select v (timer ∷ bs) d c =
      let (over, sleep') = poll_sleep v.now d.sleep in
      let d' : Drive = record d { sleep = sleep' } in
      let rest = select v bs d' c in
      let t : Turn E = on_sleep max_connection_age_grace d' in
      elim over [ true ↦ (t, told_by t c) | false ↦ rest ]

  -- What follows a round, where `rest` has the further rounds.
  abbrev pub after_round : (Drive → C → Turn E × C) → Turn E × C → Turn E × C
  after_round rest (again d, c) = rest d c
  after_round rest (suspended d, c) = (suspended d, c)
  after_round rest (closed d o, c) = (closed d o, c)

  unfoldable pub rounds : ℕ → Visit In → ℕ → Drive → C → Turn E × C
  unfolding select
  rounds zero v i d c = (again d, c)
  rounds (suc fuel) v i d c =
      after_round (λ d' c'. rounds fuel v (suc i) d' c') (select v (order_from (v.first i)) d c)

  unfoldable pub wake_up : Visit In → Drive → C → Turn E × C
  unfolding rounds
  wake_up v d c = rounds 3 v 0 d c

  -- What follows a wake-up.
  abbrev pub after_wake : (Drive → C → Turn E × C) → Turn E × C → Turn E × C
  after_wake rest (again d, c) = (again d, c)
  after_wake rest (suspended d, c) = rest d c
  after_wake rest (closed d o, c) = (closed d o, c)

  unfoldable pub drive : List (Visit In) → Drive → C → Turn E × C
  unfolding wake_up
  drive [] d c = (suspended d, c)
  drive (v ∷ vs) d c = after_wake (λ d' c'. drive vs d' c') (wake_up v d c)

  unfoldable pub drive_connection : Option Duration → List (Visit In) → C → Turn E × C
  unfolding drive
  drive_connection max_connection_age vs c = drive vs (Drive.start max_connection_age) c
