-- ===== src/Connection/Graceful/Prompt.antt =====
-- A connection that resolves as soon as it is polled after `graceful_shutdown`.
use sui_http.Prelude.{◌<◌, ◌≡◌, refl, false, Option, some, List, [], ◌∷◌, Duration}
use sui_http.Connection.Drive
use sui_http.Connection.Drive.{
  Branch, signal, connection, timer, order_from, Drive, Outcome, finished, grace_expired, Turn,
  again, suspended, closed, poll_cancelled, on_signal, on_sleep,
}
use sui_http.Connection.Drive.Rounds.{Ends}
use sui_http.Connection.Drive.Unforced.{IsFinished}
use sui_http.Connection.Graceful.{
  GracefulConnection, Visit, wake_up, drive, drive_connection, after_wake,
}
use sui_http.Connection.Graceful.Told.{IsPrompt, Kept, wake_up-Kept, wake_up-Ends}

module _ {C In E : Type 0} (conn : GracefulConnection C In E) (prompt : IsPrompt conn)
    (g : Duration) (positive : 0 < g) where
  abbrev Untold : Turn E → Type 0
  Untold = Ends (λ d. d.in_grace_period ≡ false) (λ _ o. IsFinished o)

  after_wake-Untold :
      (v : Visit In) (rest : Drive → C → Turn E × C) (t : Turn E × C)
      → Ends (λ _. Unit {0}) (λ _ _. Unit {0}) t.0
      → Kept conn prompt g positive v t
      → ((d : Drive) (c : C) → d.in_grace_period ≡ false → Untold (rest d c).0)
      → Untold (after_wake conn (some g) rest t).0
  after_wake-Untold v rest (again d, c) e h more = absurd e
  after_wake-Untold v rest (suspended d, c) e h more = more d c h
  after_wake-Untold v rest (closed d o, c) e h more = h

  drive-Untold :
      (vs : List (Visit In)) (d : Drive) (c : C)
      → d.in_grace_period ≡ false
      → Untold (drive conn (some g) vs d c).0
  unfolding drive
  drive-Untold [] d c h = h
  drive-Untold (v ∷ vs) d c h =
      after_wake-Untold v _ (wake_up conn (some g) v d c)
        (wake_up-Ends conn prompt g positive v d c) (wake_up-Kept conn prompt g positive v d c h)
        (λ d' c' h'. drive-Untold vs d' c' h')

  -- With a grace period `g` that is not zero: a connection that resolves as soon as it is polled
  -- after it was told to shut down is never cut off. Whatever the times, the token and the age
  -- limit, the loop ends only because it resolved, and in the wake-up that told it; while the loop
  -- goes on, the connection has not been told.
  pub prompt-IsFinished :
      (age : Option Duration) (vs : List (Visit In)) (c : C)
      → Ends
          (λ d. d.in_grace_period ≡ false)
          (λ _ o. IsFinished o)
          (drive_connection conn (some g) age vs c).0
  unfolding drive_connection Drive.start
  prompt-IsFinished age vs c = drive-Untold vs (Drive.start age) c refl
