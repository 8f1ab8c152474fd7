-- ===== src/Connection/Drive/Unforced.antt =====
-- When the loop does not cut a connection off.
use sui_http.Prelude.{
  ℕ, ◌≡◌, refl, sym, subst, true, false, Option, none, List, Result, Duration, All, All-of_each,
  arith,
}
use sui_http.Connection.Sleep.{never, sleep_or_pending, poll_sleep}
use sui_http.Connection.Drive.{Wake, Drive, Outcome, finished, Turn, start, drive_connection}
use sui_http.Connection.Drive.Turns.{
  same, polled, Selected, signalled, signalled_late, resolved, aged, expired, nothing,
}
use sui_http.Connection.Drive.Rounds.{Post, Ends, wake_up_rule, drive_rule}

-- The loop ended because the connection's future resolved.
abbrev pub IsFinished : {E : Type 0} → Outcome E → Type 0
IsFinished {E} o = (rv : Result (Unit {0}) E) × (o ≡ finished rv)

abbrev pub Unlimited : Drive → Type 0
Unlimited d = d.in_grace_period ≡ true → d.sleep ≡ never

-- Nothing was done to the connection, and no timer runs.
abbrev pub Untouched : Drive → Type 0
Untouched d = (d.in_grace_period ≡ false) × (d.sleep ≡ never) × (d.shutdowns ≡ 0)

module _ {E : Type 0} (w : Wake E) (i : ℕ) where
  Unlimited-round :
      (d : Drive) (t : Turn E)
      → Unlimited d
      → Selected none w (w.conn i) d t
      → Post Unlimited Unlimited (λ _ o. IsFinished o) t
  unfolding poll_sleep sleep_or_pending
  Unlimited-round d t h (signalled e p c k) = ground arith
  Unlimited-round d t h (signalled_late e same c k) = ground arith
  Unlimited-round d t h (signalled_late e polled c k) = ground arith
  Unlimited-round d t h (resolved e rv p c k) =
      subst (Post Unlimited Unlimited (λ _ o. IsFinished o)) (sym k) (rv, refl)
  Unlimited-round d t h (aged o c k) = ground arith
  Unlimited-round d t h (expired o c k) = ground arith
  Unlimited-round d t h (nothing c q o k) = ground arith

  Untouched-round :
      (grace : Option Duration) (d : Drive) (t : Turn E)
      → w.cancelled ≡ false
      → Untouched d
      → Selected grace w (w.conn i) d t
      → Post Untouched Untouched (λ e o. Untouched e × IsFinished o) t
  unfolding poll_sleep
  Untouched-round grace d t c₀ h (signalled e p c k) = ground arith
  Untouched-round grace d t c₀ h (signalled_late e p c k) = ground arith
  Untouched-round grace d t c₀ h (resolved e rv same c k) =
      subst (Post Untouched Untouched (λ e o. Untouched e × IsFinished o)) (sym k) (h, (rv, refl))
  Untouched-round grace d t c₀ h (resolved e rv polled c k) =
      subst (Post Untouched Untouched (λ e o. Untouched e × IsFinished o)) (sym k)
        (ground arith, (rv, refl))
  Untouched-round grace d t c₀ h (aged o c k) = ground arith
  Untouched-round grace d t c₀ h (expired o c k) = ground arith
  Untouched-round grace d t c₀ h (nothing c q o k) = ground arith

-- Without a grace period the loop ends only when the connection's own future resolves, however
-- the shutdown was started: while it goes on after that, no timer runs.
pub Unlimited-IsFinished :
    {E : Type 0} (age : Option Duration) (ws : List (Wake E))
    → Ends Unlimited (λ _ o. IsFinished o) (drive_connection none age ws)
unfolding drive_connection start
Unlimited-IsFinished age ws =
    drive_rule none Unlimited (λ _ o. IsFinished o) (λ _. Unit {0})
      (λ w d _.
        wake_up_rule none w Unlimited Unlimited (λ _ o. IsFinished o) (λ i. Unlimited-round w i) d)
      ws (start age) (All-of_each (λ _. Unit {0}) ws (λ _. tt)) (ground arith)

-- Without an age limit and without a cancellation, the connection is never told to shut down, and
-- the loop ends only when the connection's future resolves.
pub Untouched-IsFinished :
    {E : Type 0} (grace : Option Duration) (ws : List (Wake E))
    → All (λ w. w.cancelled ≡ false) ws
    → Ends Untouched (λ d o. Untouched d × IsFinished o) (drive_connection grace none ws)
unfolding drive_connection start sleep_or_pending
Untouched-IsFinished grace ws quiet =
    drive_rule grace Untouched (λ d o. Untouched d × IsFinished o) (λ w. w.cancelled ≡ false)
      (λ w d c.
        wake_up_rule grace w Untouched Untouched (λ e o. Untouched e × IsFinished o)
          (λ i e t. Untouched-round w i grace e t c) d)
      ws (start none) quiet (refl, refl, refl)
