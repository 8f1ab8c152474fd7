-- ===== src/Connection/Graceful/Told.antt =====
-- The rounds of a wake-up, for a connection that resolves as soon as it is polled after
-- `graceful_shutdown`.
use sui_http.Prelude.{
  ℕ, zero, suc, ◌+◌, ◌<◌, ◌≡◌, ◌⊎◌, refl, sym, ap, ◌∙◌, subst, true, false, some, List, [], ◌∷◌,
  Result, ready, Poll-cases, Bool-cases, inl, inr, Duration, arith,
}
use sui_http.Fuse
use sui_http.Connection.Sleep.{Sleep, fresh, armed, sleep_or_pending, poll_sleep}
use sui_http.Connection.Drive
use sui_http.Connection.Drive.{
  Branch, signal, connection, timer, order_from, Drive, Outcome, finished, grace_expired, Turn,
  again, suspended, closed, poll_cancelled, on_signal, on_sleep,
}
use sui_http.Connection.Drive.Rounds.{Post, Ends, wake_up_rule}
use sui_http.Connection.Drive.Unforced.{IsFinished}
use sui_http.Connection.Graceful.{
  GracefulConnection, Visit, select, rounds, wake_up, after_round, told_by,
}
use sui_http.Connection.Graceful.Turns.{wake}
use sui_http.Connection.Graceful.Sees.{rounds-Sees}

-- The connection's branch is among those that are left.
abbrev Asked : List Branch → Type 0
Asked [] = ⊥
Asked (signal ∷ bs) = Asked bs
Asked (connection ∷ bs) = Unit
Asked (timer ∷ bs) = Asked bs

order_from-Asked : (b : Branch) → Asked (order_from b)
order_from-Asked signal = tt
order_from-Asked connection = tt
order_from-Asked timer = tt

-- It resolves at any poll after it was told to shut down.
abbrev pub IsPrompt : {C In E : Type 0} → GracefulConnection C In E → Type 0
IsPrompt {C} {In} {E} conn =
    (input : In) (c : C)
    → (rv : Result (Unit {0}) E) × ((conn.poll input (conn.graceful_shutdown c)).0 ≡ ready rv)

module _ {C In E : Type 0} (conn : GracefulConnection C In E) (prompt : IsPrompt conn)
    (g : Duration) (positive : 0 < g) (v : Visit In) where
  -- The grace timer has not been polled, or was first polled in this wake-up.
  abbrev Young : Sleep → Type 0
  Young s = (s ≡ fresh g) ⊎ (s ≡ armed (v.now + g))

  -- The connection was told in this wake-up.
  abbrev Told : Drive → C → Type 0
  Told d c =
      (d.in_grace_period ≡ true)
      × Young d.sleep
      × (before : C) × (c ≡ conn.graceful_shutdown before)

  -- After a `select!`, where the connection was `asked` or not.
  abbrev After : Type 0 → Turn E × C → Type 0
  After asked (again d, c) = Told d c
  After asked (suspended d, c) = (d.in_grace_period ≡ false) ⊎ ¬ asked
  After asked (closed d o, c) = IsFinished o

  Young-poll :
      (s : Sleep) → Young s → ((poll_sleep v.now s).0 ≡ false) × Young (poll_sleep v.now s).1
  unfolding poll_sleep
  Young-poll s (inl e) = (rw e (ground arith), rw e (inr refl))
  Young-poll s (inr e) = (rw e (ground arith), rw e (inr refl))

  told_poll :
      (c : C)
      → (before : C) × (c ≡ conn.graceful_shutdown before)
      → (rv : Result (Unit {0}) E) × ((conn.poll v.input c).0 ≡ ready rv)
  told_poll c (before, e) =
      let (rv, h) = prompt v.input before in (rv, ap (λ z. (conn.poll v.input z).0) e ∙ h)

  Told-signal :
      (d : Drive) (c : C) → Told d c → Told (on_signal (some g) d) (conn.graceful_shutdown c)
  unfolding on_signal
  Told-signal d c (e, y, b, t) = rw (e, on_signal) (refl, y, c, refl)

  select-Told :
      (bs : List Branch) (d : Drive) (c : C)
      → Told d c
      → After (Asked bs) (select conn (some g) v bs d c)
  unfolding select
  select-Told [] d c h = inr (λ bad. bad)
  select-Told (signal ∷ bs) d c h =
      let d' : Drive = record d { sig = (Fuse.poll (poll_cancelled v.cancelled) d.sig).1 } in
      elim (Poll-cases (Fuse.poll (poll_cancelled v.cancelled) d.sig).0) [
        | inl e ↦ rw (e, select) (select-Told bs d' c h)
        | inr (t, e) ↦ rw (e, select) (Told-signal d' c h)
      ]
  select-Told (connection ∷ bs) d c h =
      let (rv, e) = told_poll c (h.2, h.3) in rw (e, select) (rv, refl)
  select-Told (timer ∷ bs) d c h =
      let (waits, young) = Young-poll d.sleep h.1 in
      let d' : Drive = record d { sleep = (poll_sleep v.now d.sleep).1 } in
      rw (waits, select) (select-Told bs d' c (h.0, young, h.2, h.3))

  -- Before the shutdown.
  abbrev Early : Drive → Type 0
  Early d = d.in_grace_period ≡ false

  entered : (d : Drive) (c : C) → Early d → Told (on_signal (some g) d) (conn.graceful_shutdown c)
  unfolding on_signal sleep_or_pending
  entered d c e = rw (e, on_signal) (refl, inl refl, c, refl)

  aged :
      (d : Drive) (c : C)
      → Early d
      → let t : Turn E = on_sleep (some g) d in After Unit (t, told_by conn (some g) t c)
  unfolding on_sleep sleep_or_pending
  aged d c e = rw (e, on_sleep) (refl, inl refl, c, refl)

  select-Early :
      (bs : List Branch) (d : Drive) (c : C) → Early d → After Unit (select conn (some g) v bs d c)
  unfolding select
  select-Early [] d c h = inl h
  select-Early (signal ∷ bs) d c h =
      let d' : Drive = record d { sig = (Fuse.poll (poll_cancelled v.cancelled) d.sig).1 } in
      elim (Poll-cases (Fuse.poll (poll_cancelled v.cancelled) d.sig).0) [
        | inl e ↦ rw (e, select) (select-Early bs d' c h)
        | inr (t, e) ↦ rw (e, select) (entered d' c h)
      ]
  select-Early (connection ∷ bs) d c h = elim (Poll-cases (conn.poll v.input c).0) [
    | inl e ↦ rw (e, select) (select-Early bs d (conn.poll v.input c).1 h)
    | inr (rv, e) ↦ rw (e, select) (rv, refl)
  ]
  select-Early (timer ∷ bs) d c h =
      let d' : Drive = record d { sleep = (poll_sleep v.now d.sleep).1 } in
      elim (Bool-cases (poll_sleep v.now d.sleep).0) [
        | inl e ↦ rw (e, select) (aged d' c h)
        | inr e ↦ rw (e, select) (select-Early bs d' c h)
      ]

  -- What is shown of a wake-up: a connection that is left waiting was not told to shut down.
  abbrev pub Kept : Turn E × C → Type 0
  Kept (again d, c) = Unit
  Kept (suspended d, c) = Early d
  Kept (closed d o, c) = IsFinished o

  after_round-Kept :
      (asked : Type 0) (rest : Drive → C → Turn E × C) (t : Turn E × C)
      → asked
      → After asked t
      → ((d : Drive) (c : C) → Told d c → Kept (rest d c))
      → Kept (after_round conn (some g) rest t)
  after_round-Kept asked rest (again d, c) a h more = more d c h
  after_round-Kept asked rest (suspended d, c) a (inl e) more = e
  after_round-Kept asked rest (suspended d, c) a (inr n) more = absurd (n a)
  after_round-Kept asked rest (closed d o, c) a h more = h

  rounds-Told :
      (fuel i : ℕ) (d : Drive) (c : C) → Told d c → Kept (rounds conn (some g) fuel v i d c)
  unfolding rounds
  rounds-Told zero i d c h = tt
  rounds-Told (suc fuel) i d c h =
      let bs = order_from (v.first i) in
      after_round-Kept (Asked bs) _ (select conn (some g) v bs d c) (order_from-Asked (v.first i))
        (select-Told bs d c h) (λ d' c' h'. rounds-Told fuel (suc i) d' c' h')

  pub wake_up-Kept : (d : Drive) (c : C) → Early d → Kept (wake_up conn (some g) v d c)
  unfolding wake_up rounds
  wake_up-Kept d c h =
      let bs = order_from (v.first 0) in
      after_round-Kept Unit _ (select conn (some g) v bs d c) tt (select-Early bs d c h)
        (λ d' c' h'. rounds-Told 2 1 d' c' h')

  any_turn : (t : Turn E) → Post (λ _. Unit {0}) (λ _. Unit {0}) (λ _ _. Unit {0}) t
  any_turn (again d) = tt
  any_turn (suspended d) = tt
  any_turn (closed d o) = tt

  -- The rounds end, as they do for the results of the polls.
  pub wake_up-Ends :
      (d : Drive) (c : C) → Ends (λ _. Unit {0}) (λ _ _. Unit {0}) (wake_up conn (some g) v d c).0
  unfolding wake_up Drive.wake_up
  wake_up-Ends d c =
      let (q, e) = rounds-Sees conn (some g) v 3 0 d c in
      subst (Ends (λ _. Unit {0}) (λ _ _. Unit {0})) (sym e) (
        wake_up_rule (some g) (wake v q) (λ _. Unit {0}) (λ _. Unit {0}) (λ _ _. Unit {0})
          (λ i e t h w. any_turn t) d tt)
