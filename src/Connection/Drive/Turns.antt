-- ===== src/Connection/Drive/Turns.antt =====
-- One `select!`, whatever branch is polled first.
use sui_http.Prelude.{
  ℕ, ◌≡◌, ◌⊎◌, refl, ap, sym, subst, inl, inr, Bool, true, false, Option, none, some, List, [], ◌∷◌,
  Result, Poll, ready, pending, Duration, arith, Bool-cases, Option-cases, Poll-cases,
}
use sui_http.Fuse
use sui_http.Fuse.{Fuse}
use sui_http.Connection.Sleep.{poll_sleep}
use sui_http.Connection.Drive.{
  Branch, signal, connection, timer, order_from, Wake, Drive, finished, grace_expired, Turn, again,
  suspended, closed, on_signal, on_sleep, enter_grace, graceful_shutdown, select, poll_cancelled,
}

abbrev pub spent : Fuse (Unit {0})
spent = record { inner = none }

abbrev pub unspent : Fuse (Unit {0})
unspent = record { inner = some tt }

-- The state after the timer was polled, or not.
pub data Polled (now : ℕ) (d : Drive) : Drive → Type 0 where
  same : Polled now d d
  polled : Polled now d (record d { sleep = (poll_sleep now d.sleep).1 })

-- Polling the fused token: it fires once, when the token is cancelled.
sig_cases :
    (cancelled : Bool) (sig : Fuse (Unit {0}))
    → ((cancelled ≡ true)
        × (sig ≡ record { inner = some tt })
        × (Fuse.poll (poll_cancelled cancelled) sig ≡ (ready tt, spent)))
      ⊎ (((cancelled ≡ false) ⊎ (sig ≡ spent))
          × (Fuse.poll (poll_cancelled cancelled) sig ≡ (pending, sig)))
unfolding Fuse.poll
sig_cases cancelled sig = elim (Option-cases sig.inner) [
  | inl e ↦ inr (inr (ground arith), ground arith)
  | inr (t, e) ↦ elim (Bool-cases cancelled) [
    | inl c ↦ inl (c, ground arith, ground arith)
    | inr c ↦ inr (inl c, ground arith)
  ]
]

abbrev pub with_sleep : ℕ → Drive → Drive
with_sleep now d = record d { sleep = (poll_sleep now d.sleep).1 }

abbrev pub spend : Drive → Drive
spend d = graceful_shutdown (record d { sig = spent })

module _ {E : Type 0} (grace : Option Duration) (w : Wake E)
    (conn : Poll (Result (Unit {0}) E)) where
  -- What one `select!` can do, and when: the signal arrives first or in the grace period, the
  -- connection resolves, the timer ends before or in the grace period, or nothing is ready.
  pub data Selected (d : Drive) (t : Turn E) : Type 0 where
    signalled :
        (e : Drive)
        → Polled w.now d e
        → (w.cancelled ≡ true) × (d.sig ≡ unspent) × (d.in_grace_period ≡ false)
        → t ≡ again (enter_grace grace (spend e))
        → Selected d t
    signalled_late :
        (e : Drive)
        → Polled w.now d e
        → (w.cancelled ≡ true) × (d.sig ≡ unspent) × (d.in_grace_period ≡ true)
        → t ≡ again (spend e)
        → Selected d t
    resolved :
        (e : Drive) (rv : Result (Unit {0}) E)
        → Polled w.now d e
        → conn ≡ ready rv
        → t ≡ closed e (finished rv)
        → Selected d t
    aged :
        (poll_sleep w.now d.sleep).0 ≡ true
        → d.in_grace_period ≡ false
        → t ≡ again (enter_grace grace (graceful_shutdown (with_sleep w.now d)))
        → Selected d t
    expired :
        (poll_sleep w.now d.sleep).0 ≡ true
        → d.in_grace_period ≡ true
        → t ≡ closed (with_sleep w.now d) grace_expired
        → Selected d t
    nothing :
        conn ≡ pending
        → (w.cancelled ≡ false) ⊎ (d.sig ≡ spent)
        → (poll_sleep w.now d.sleep).0 ≡ false
        → t ≡ suspended (with_sleep w.now d)
        → Selected d t

  signal-Selected :
      (d e : Drive)
      → Polled w.now d e
      → w.cancelled ≡ true
      → d.sig ≡ unspent
      → Selected d (again (on_signal grace (record e { sig = spent })))
  unfolding on_signal
  signal-Selected d e same c live = elim (Bool-cases d.in_grace_period) [
    | inl g ↦ signalled_late d same (c, live, g) (rw g refl)
    | inr g ↦ signalled d same (c, live, g) (rw g refl)
  ]
  signal-Selected d e polled c live = elim (Bool-cases d.in_grace_period) [
    | inl g ↦ signalled_late _ polled (c, live, g) (rw g refl)
    | inr g ↦ signalled _ polled (c, live, g) (rw g refl)
  ]

  timer-Selected :
      (d : Drive)
      → (poll_sleep w.now d.sleep).0 ≡ true
      → Selected d (on_sleep grace (with_sleep w.now d))
  unfolding on_sleep
  timer-Selected d h = elim (Bool-cases d.in_grace_period) [
    | inl g ↦ expired h g (rw g refl)
    | inr g ↦ aged h g (rw g refl)
  ]

  select-signal :
      (bs : List Branch) (d : Drive) {q : Poll (Unit {0}) × Fuse (Unit {0})}
      → Fuse.poll (poll_cancelled w.cancelled) d.sig ≡ q
      → select grace w conn (signal ∷ bs) d ≡ elim q.0 [
        | ready _ ↦ again (on_signal grace (record d { sig = q.1 }))
        | pending ↦ select grace w conn bs (record d { sig = q.1 })
      ]
  unfolding select
  select-signal bs d e =
      ap {B = Turn E}
        (λ q. elim q.0 [
          | ready _ ↦ again (on_signal grace (record d { sig = q.1 }))
          | pending ↦ select grace w conn bs (record d { sig = q.1 })
        ])
        e

  select-connection :
      (bs : List Branch) (d : Drive) {r : Poll (Result (Unit {0}) E)}
      → conn ≡ r
      → select grace w conn (connection ∷ bs) d
        ≡ elim r [ ready rv ↦ closed d (finished rv) | pending ↦ select grace w conn bs d ]
  unfolding select
  select-connection bs d e =
      ap {B = Turn E}
        (λ r. elim r [ ready rv ↦ closed d (finished rv) | pending ↦ select grace w conn bs d ]) e

  select-timer :
      (bs : List Branch) (d : Drive) {b : Bool}
      → (poll_sleep w.now d.sleep).0 ≡ b
      → select grace w conn (timer ∷ bs) d ≡ elim b [
        | true ↦ on_sleep grace (with_sleep w.now d)
        | false ↦ select grace w conn bs (with_sleep w.now d)
      ]
  unfolding select
  select-timer bs d e =
      ap {B = Turn E}
        (λ b. elim b [
          | true ↦ on_sleep grace (with_sleep w.now d)
          | false ↦ select grace w conn bs (with_sleep w.now d)
        ])
        e

  select-nil : {d e : Drive} → Selected d (suspended e) → Selected d (select grace w conn [] e)
  unfolding select
  select-nil h = h

  along : {d : Drive} {t u : Turn E} → t ≡ u → Selected d u → Selected d t
  along {d} e h = subst (Selected d) (sym e) h

  pub select-Selected : (b : Branch) (d : Drive) → Selected d (select grace w conn (order_from b) d)
  select-Selected signal d = elim (sig_cases w.cancelled d.sig) [
    | inl (c, live, e) ↦ along (select-signal _ d e) (signal-Selected d d same c live)
    | inr (quiet, e) ↦ along (select-signal _ d e) (elim (Poll-cases conn) [
      | inr (rv, f) ↦ along (select-connection _ d f) (resolved d rv same f refl)
      | inl f ↦ along (select-connection _ d f) (elim (Bool-cases (poll_sleep w.now d.sleep).0) [
        | inl g ↦ along (select-timer _ d g) (timer-Selected d g)
        | inr g ↦ along (select-timer _ d g) (select-nil (nothing f quiet g refl))
      ])
    ])
  ]
  select-Selected connection d = elim (Poll-cases conn) [
    | inr (rv, f) ↦ along (select-connection _ d f) (resolved d rv same f refl)
    | inl f ↦ along (select-connection _ d f) (elim (Bool-cases (poll_sleep w.now d.sleep).0) [
      | inl g ↦ along (select-timer _ d g) (timer-Selected d g)
      | inr g ↦ along (select-timer _ d g) (elim (sig_cases w.cancelled d.sig) [
        | inl (c, live, e) ↦
            along (select-signal _ (with_sleep w.now d) e) (signal-Selected d _ polled c live)
        | inr (quiet, e) ↦
            along (select-signal _ (with_sleep w.now d) e) (select-nil (nothing f quiet g refl))
      ])
    ])
  ]
  select-Selected timer d = elim (Bool-cases (poll_sleep w.now d.sleep).0) [
    | inl g ↦ along (select-timer _ d g) (timer-Selected d g)
    | inr g ↦ along (select-timer _ d g) (elim (sig_cases w.cancelled d.sig) [
      | inl (c, live, e) ↦
          along (select-signal _ (with_sleep w.now d) e) (signal-Selected d _ polled c live)
      | inr (quiet, e) ↦ along (select-signal _ (with_sleep w.now d) e) (elim (Poll-cases conn) [
        | inr (rv, f) ↦
            along (select-connection _ (with_sleep w.now d) f) (resolved _ rv polled f refl)
        | inl f ↦
            along (select-connection _ (with_sleep w.now d) f) (select-nil (nothing f quiet g refl))
      ])
    ])
  ]
