-- ===== src/Connection/Drive/Lifetime.antt =====
-- How long a connection lives once its shutdown has begun: the rounds of one wake-up.
pub mod Bounds
use sui_http.Prelude.{
  ℕ, zero, suc, ◌+◌, ◌≤◌, ◌<◌, ◌≡◌, ◌⊎◌, refl, sym, subst, inl, inr, Bool, true, false, Option,
  none, some, List, [], ◌∷◌, ◌++◌, Poll, ready, pending, Duration, All, arith,
}
use sui_http.Connection.Sleep.{Sleep, fresh, armed, never, sleep_or_pending, poll_sleep}
use sui_http.Connection.Drive.{
  Wake, Drive, Outcome, finished, grace_expired, Turn, again, suspended, closed, wake_up,
  enter_grace,
}
use sui_http.Connection.Drive.Turns.{
  Polled, same, polled, unspent, spent, Selected, signalled, signalled_late, resolved, aged,
  expired, nothing,
}
use sui_http.Connection.Drive.Rounds.{Post, Ends, wake_up_rule}

-- A timer that goes off at `limit` at the latest.
abbrev pub Due : ℕ → Sleep → Type 0
Due limit s = (t : ℕ) × (s ≡ armed t) × (t ≤ limit)

-- The same, or a timer of duration `g` that has not been polled.
abbrev pub Timed : Duration → ℕ → Sleep → Type 0
Timed g limit s = (s ≡ fresh g) ⊎ Due limit s

abbrev pub Armed : ℕ → Drive → Type 0
Armed limit d = (d.in_grace_period ≡ true) × Due limit d.sleep

abbrev pub Graced : Duration → ℕ → Drive → Type 0
Graced g limit d = (d.in_grace_period ≡ true) × Timed g limit d.sleep

pub poll_sleep-Due :
    (g : Duration) (now limit : ℕ) (s : Sleep)
    → now + g ≤ limit
    → Timed g limit s
    → Due limit (poll_sleep now s).1
unfolding poll_sleep
poll_sleep-Due g now limit s lt (inl e) = (now + g, rw e refl, lt)
poll_sleep-Due g now limit s lt (inr (t, e, l)) = (t, rw e refl, l)

pub poll_sleep-kept : (now limit : ℕ) (s : Sleep) → Due limit s → Due limit (poll_sleep now s).1
unfolding poll_sleep
poll_sleep-kept now limit s (t, e, l) = (t, rw e refl, l)

poll_sleep-over :
    (now limit : ℕ) (s : Sleep) → limit ≤ now → Due limit s → (poll_sleep now s).0 ≡ true
unfolding poll_sleep
poll_sleep-over now limit s h (t, e, l) = ground arith

fresh-grace : (g : Duration) → sleep_or_pending (some g) ≡ fresh g
unfolding sleep_or_pending
fresh-grace g = refl

module _ {E : Type 0} (g : Duration) (w : Wake E) where
  abbrev pub Any : Drive → Outcome E → Type 0
  Any d o = Unit {0}

  turned : (I P : Drive → Type 0) {t u : Turn E} → t ≡ u → Post I P Any u → Post I P Any t
  turned I P k h = subst (Post I P Any) (sym k) h

  -- A wake-up in the grace period leaves the deadline as it is, whatever the time.
  Armed-round :
      (limit i : ℕ) (d : Drive) (t : Turn E)
      → Armed limit d
      → Selected (some g) w (w.conn i) d t
      → Post (Armed limit) (Armed limit) Any t
  Armed-round limit i d t h (signalled e p c k) = cc
  Armed-round limit i d t h (signalled_late e same c k) = turned (Armed limit) (Armed limit) k h
  Armed-round limit i d t h (signalled_late e polled c k) =
      turned (Armed limit) (Armed limit) k (h.0, poll_sleep-kept w.now limit d.sleep h.1)
  Armed-round limit i d t h (resolved e rv p c k) = turned (Armed limit) (Armed limit) k tt
  Armed-round limit i d t h (aged o c k) = cc
  Armed-round limit i d t h (expired o c k) = turned (Armed limit) (Armed limit) k tt
  Armed-round limit i d t h (nothing c q o k) =
      turned (Armed limit) (Armed limit) k (h.0, poll_sleep-kept w.now limit d.sleep h.1)

  -- One past the deadline does not end with the task asleep.
  late_round :
      (limit i : ℕ) (d : Drive) (t : Turn E)
      → limit ≤ w.now
      → Armed limit d
      → Selected (some g) w (w.conn i) d t
      → Post (Armed limit) (λ _. ⊥) Any t
  late_round limit i d t late h (signalled e p c k) = cc
  late_round limit i d t late h (signalled_late e same c k) = turned (Armed limit) (λ _. ⊥) k h
  late_round limit i d t late h (signalled_late e polled c k) =
      turned (Armed limit) (λ _. ⊥) k (h.0, poll_sleep-kept w.now limit d.sleep h.1)
  late_round limit i d t late h (resolved e rv p c k) = turned (Armed limit) (λ _. ⊥) k tt
  late_round limit i d t late h (aged o c k) = cc
  late_round limit i d t late h (expired o c k) = turned (Armed limit) (λ _. ⊥) k tt
  late_round limit i d t late h (nothing c q o k) =
      cc (poll_sleep-over w.now limit d.sleep late h.1)

  -- A wake-up that starts the shutdown, or finds it started: the token is cancelled, or the age
  -- timer is due.
  abbrev pub Triggered : Drive → Type 0
  Triggered d =
      Graced g (w.now + g) d
      ⊎ ((d.in_grace_period ≡ false)
          × (((w.cancelled ≡ true) × (d.sig ≡ unspent)) ⊎ Due w.now d.sleep))

  entered : (limit : ℕ) (d : Drive) → Graced g limit (enter_grace (some g) d)
  unfolding sleep_or_pending
  entered limit d = (refl, inl refl)

  trigger_round :
      (i : ℕ) (d : Drive) (t : Turn E)
      → Triggered d
      → Selected (some g) w (w.conn i) d t
      → Post Triggered (Armed (w.now + g)) Any t
  trigger_round i d t h (signalled e p c k) =
      turned Triggered (Armed (w.now + g)) k (inl (entered (w.now + g) d))
  trigger_round i d t (inl h) (signalled_late e same c k) =
      turned Triggered (Armed (w.now + g)) k (inl h)
  trigger_round i d t (inl h) (signalled_late e polled c k) =
      turned Triggered (Armed (w.now + g)) k
        (inl (h.0, inr (poll_sleep-Due g w.now (w.now + g) d.sleep (omega arith) h.1)))
  trigger_round i d t (inr h) (signalled_late e p c k) = cc
  trigger_round i d t h (resolved e rv p c k) = turned Triggered (Armed (w.now + g)) k tt
  trigger_round i d t h (aged o c k) =
      turned Triggered (Armed (w.now + g)) k (inl (entered (w.now + g) d))
  trigger_round i d t h (expired o c k) = turned Triggered (Armed (w.now + g)) k tt
  trigger_round i d t (inl h) (nothing c q o k) =
      turned Triggered (Armed (w.now + g)) k
        (h.0, poll_sleep-Due g w.now (w.now + g) d.sleep (omega arith) h.1)
  trigger_round i d t (inr (f, inl (x, y))) (nothing c (inl q) o k) = cc
  trigger_round i d t (inr (f, inl (x, y))) (nothing c (inr q) o k) = cc
  trigger_round i d t (inr (f, inr h)) (nothing c q o k) =
      cc (poll_sleep-over w.now w.now d.sleep (omega arith) h)

  -- Before the shutdown: the signal is there to fire, and `D` holds of the timer.
  abbrev pub Before : (Sleep → Type 0) → ℕ → Drive → Type 0
  Before D limit d =
      Graced g limit d ⊎ ((d.in_grace_period ≡ false) × (d.sig ≡ unspent) × D d.sleep)

  Before-round :
      (D D' : Sleep → Type 0) (limit : ℕ)
      → w.now + g ≤ limit
      → ((s : Sleep) → D s → D' (poll_sleep w.now s).1)
      → (i : ℕ) (d : Drive) (t : Turn E) → Before D limit d
      → Selected (some g) w (w.conn i) d t
      → Post (Before D limit) (Before D' limit) Any t
  Before-round D D' limit early keep i d t h (signalled e p c k) =
      turned (Before D limit) (Before D' limit) k (inl (entered limit d))
  Before-round D D' limit early keep i d t (inl h) (signalled_late e same c k) =
      turned (Before D limit) (Before D' limit) k (inl h)
  Before-round D D' limit early keep i d t (inl h) (signalled_late e polled c k) =
      turned (Before D limit) (Before D' limit) k
        (inl (h.0, inr (poll_sleep-Due g w.now limit d.sleep early h.1)))
  Before-round D D' limit early keep i d t (inr h) (signalled_late e p c k) = cc
  Before-round D D' limit early keep i d t h (resolved e rv p c k) =
      turned (Before D limit) (Before D' limit) k tt
  Before-round D D' limit early keep i d t h (aged o c k) =
      turned (Before D limit) (Before D' limit) k (inl (entered limit d))
  Before-round D D' limit early keep i d t h (expired o c k) =
      turned (Before D limit) (Before D' limit) k tt
  Before-round D D' limit early keep i d t (inl h) (nothing c q o k) =
      turned (Before D limit) (Before D' limit) k
        (inl (h.0, inr (poll_sleep-Due g w.now limit d.sleep early h.1)))
  Before-round D D' limit early keep i d t (inr h) (nothing c q o k) =
      turned (Before D limit) (Before D' limit) k (inr (h.0, h.1, keep d.sleep h.2))

  pub wake_up-Before :
      (D D' : Sleep → Type 0) (limit : ℕ)
      → w.now + g ≤ limit
      → ((s : Sleep) → D s → D' (poll_sleep w.now s).1)
      → (d : Drive) → Before D limit d
      → Ends (Before D' limit) Any (wake_up (some g) w d)
  wake_up-Before D D' limit early keep =
      wake_up_rule (some g) w (Before D limit) (Before D' limit) Any
        (Before-round D D' limit early keep)

  pub wake_up-Triggered :
      (d : Drive) → Triggered d → Ends (Armed (w.now + g)) Any (wake_up (some g) w d)
  wake_up-Triggered = wake_up_rule (some g) w Triggered (Armed (w.now + g)) Any trigger_round

  pub wake_up-Armed :
      (limit : ℕ) (d : Drive) → Armed limit d → Ends (Armed limit) Any (wake_up (some g) w d)
  wake_up-Armed limit = wake_up_rule (some g) w (Armed limit) (Armed limit) Any (Armed-round limit)

  pub wake_up-late :
      (limit : ℕ) (d : Drive)
      → limit ≤ w.now
      → Armed limit d
      → Ends (λ _. ⊥) Any (wake_up (some g) w d)
  wake_up-late limit d late =
      wake_up_rule (some g) w (Armed limit) (λ _. ⊥) Any (λ i d t. late_round limit i d t late) d
