-- ===== src/Connection/Drive/Lifetime/Bounds.antt =====
-- How long a connection lives once its shutdown has begun: whole lives of the task.
use sui_http.Prelude.{
  ℕ, ◌+◌, ◌≤◌, ◌≡◌, refl, inl, inr, true, false, Option, some, List, ◌∷◌, ◌++◌, Duration, All,
  All-of_each, arith,
}
use sui_http.Fuse.{new}
use sui_http.Connection.Sleep.{Sleep, sleep_or_pending, poll_sleep}
use sui_http.Connection.Drive.{
  Wake, Drive, Outcome, Turn, again, suspended, closed, start, drive, drive_connection,
}
use sui_http.Connection.Drive.Turns.{unspent}
use sui_http.Connection.Drive.Rounds.{Ends, drive-cons, drive-append}
use sui_http.Connection.Drive.Lifetime.{
  Any, Due, Timed, Armed, Triggered, Before, poll_sleep-kept, poll_sleep-Due, wake_up-Before,
  wake_up-Triggered, wake_up-Armed, wake_up-late,
}

-- The loop has ended, and with it the connection.
abbrev pub IsClosed : {E : Type 0} → Turn E → Type 0
IsClosed {E} t = (d : Drive) × (o : Outcome E) × (t ≡ closed d o)

IsClosed-of_Ends : {E : Type 0} (t : Turn E) → Ends (λ _. ⊥) (λ _ _. Unit {0}) t → IsClosed t
IsClosed-of_Ends (again d) h = absurd h
IsClosed-of_Ends (suspended d) h = absurd h
IsClosed-of_Ends (closed d o) h = (d, o, refl)

module _ {E : Type 0} (g : Duration) (w : Wake E) (ws₂ : List (Wake E)) (v : Wake E)
    (ws₃ : List (Wake E)) (late : w.now + g ≤ v.now) where
  -- From the wake-up `w` that starts the shutdown, past the deadline at `v`.
  Triggered-closes :
      (d : Drive)
      → Triggered g w d
      → Ends (λ _. ⊥) (Any g w) (drive (some g) (w ∷ ws₂ ++ v ∷ ws₃) d)
  Triggered-closes d h =
      drive-cons (some g) (Armed (w.now + g)) (λ _. ⊥) (Any g w) w (ws₂ ++ v ∷ ws₃) d
        (wake_up-Triggered g w d h)
        λ d' armed'.
          drive-append (some g) (Armed (w.now + g)) (Any g w) (λ _. Unit {0})
            (λ u e _ a. wake_up-Armed g u (w.now + g) e a) (λ _. ⊥) ws₂ (v ∷ ws₃) d'
            (All-of_each (λ _. Unit {0}) ws₂ (λ _. tt)) armed'
            λ e a.
              drive-cons (some g) (λ _. ⊥) (λ _. ⊥) (Any g w) v ws₃ e
                (wake_up-late g v (w.now + g) e late a) (λ _ bad. absurd bad)

  module _ (D : Sleep → Type 0) (keep : (now : ℕ) (s : Sleep) → D s → D (poll_sleep now s).1)
      (trigger : (d : Drive)
        → d.in_grace_period ≡ false
        → d.sig ≡ unspent
        → D d.sleep
        → Triggered g w d) where
    Before-closes :
        (ws₁ : List (Wake E)) (d : Drive)
        → All (λ u. u.now ≤ w.now) ws₁
        → Before g w D (w.now + g) d
        → Ends (λ _. ⊥) (Any g w) (drive (some g) (ws₁ ++ (w ∷ ws₂ ++ v ∷ ws₃)) d)
    Before-closes ws₁ d early h =
        drive-append (some g) (Before g w D (w.now + g)) (Any g w) (λ u. u.now ≤ w.now)
          (λ u e lt b. wake_up-Before g u D D (w.now + g) (omega arith) (keep u.now) e b) (λ _. ⊥)
          ws₁ (w ∷ ws₂ ++ v ∷ ws₃) d early h
          λ e b. Triggered-closes e (elim b [ inl x ↦ inl x | inr (x, y, z) ↦ trigger e x y z ])

-- With a grace period `g`: if the token is cancelled at a wake-up `w`, and the task is woken again
-- at a time `v.now` at least `g` later, then the connection is closed by then, whatever the
-- connection, the age limit and the scheduler do before, between and after. The wake-ups before
-- `w` are no later than `w`.
pub cancelled-IsClosed :
    {E : Type 0} (g : Duration) (age : Option Duration) (ws₁ : List (Wake E)) (w : Wake E)
    (ws₂ : List (Wake E)) (v : Wake E) (ws₃ : List (Wake E))
    → All (λ u. u.now ≤ w.now) ws₁
    → w.cancelled ≡ true
    → w.now + g ≤ v.now
    → IsClosed (drive_connection (some g) age (ws₁ ++ (w ∷ ws₂ ++ v ∷ ws₃)))
unfolding drive_connection start new
cancelled-IsClosed g age ws₁ w ws₂ v ws₃ early c late = IsClosed-of_Ends _ (
    Before-closes g w ws₂ v ws₃ late (λ _. Unit {0}) (λ _ _ _. tt) (λ d x y _. inr (x, inl (c, y)))
      ws₁ (start age) early (inr (refl, refl, tt)))

-- With a maximum age `a` and a grace period `g`: if the task is first woken at `w₀`, again at a
-- time `w.now` at least `a` later, and again at a time `v.now` at least `g` after that, then the
-- connection is closed by then, whether or not the token is ever cancelled. The wake-ups before
-- `w` are no later than `w`.
pub aged-IsClosed :
    {E : Type 0} (g a : Duration) (w₀ : Wake E) (ws₁ : List (Wake E)) (w : Wake E)
    (ws₂ : List (Wake E)) (v : Wake E) (ws₃ : List (Wake E))
    → All (λ u. u.now ≤ w.now) (w₀ ∷ ws₁)
    → w₀.now + a ≤ w.now
    → w.now + g ≤ v.now
    → IsClosed (drive_connection (some g) (some a) (w₀ ∷ (ws₁ ++ (w ∷ ws₂ ++ v ∷ ws₃))))
unfolding drive_connection start new sleep_or_pending
aged-IsClosed g a w₀ ws₁ w ws₂ v ws₃ (first, early) old late =
    let D : Sleep → Type 0 = Due (w₀.now + a) in
    IsClosed-of_Ends _ (
      drive-cons (some g) (Before g w D (w.now + g)) (λ _. ⊥) (Any g w) w₀ _ (start (some a))
        (wake_up-Before g w₀ (Timed a (w₀.now + a)) D (w.now + g) (omega arith)
          (λ s. poll_sleep-Due a w₀.now (w₀.now + a) s (omega arith)) (start (some a))
          (inr (refl, refl, inl refl)))
        (λ d b.
          Before-closes g w ws₂ v ws₃ late D (λ now s. poll_sleep-kept now (w₀.now + a) s)
            (λ e x y (t, k, l). inr (x, inr (t, k, omega arith))) ws₁ d early b))
