-- ===== src/Connection/Graceful/Turns.antt =====
-- A connection with a state, as one `select!` sees it: the result of its poll.
use sui_http.Prelude.{
  ℕ, suc, ◌≡◌, refl, ap, true, false, Option, List, [], ◌∷◌, Result, Poll, ready, pending,
  Poll-cases, Bool-cases, inl, inr, Duration,
}
use sui_http.Fuse
use sui_http.Connection.Sleep.{poll_sleep}
use sui_http.Connection.Drive
use sui_http.Connection.Drive.{
  Branch, signal, connection, timer, order_from, Wake, Drive, finished, Turn, again, suspended,
  closed, poll_cancelled, on_signal, on_sleep,
}
use sui_http.Connection.Graceful.{GracefulConnection, Visit, select}

-- The same wake-up, with the results of the connection's polls in place of its input.
abbrev pub wake : {In E : Type 0} → Visit In → (ℕ → Poll (Result (Unit {0}) E)) → Wake E
wake v q = record { now = v.now; cancelled = v.cancelled; conn = q; first = v.first }

-- Each wake-up, by its number and the number of the round.
abbrev pub wakes :
    {In E : Type 0} → (ℕ → ℕ → Poll (Result (Unit {0}) E)) → List (Visit In) → List (Wake E)
wakes q [] = []
wakes q (v ∷ vs) = wake v (q 0) ∷ wakes (λ k. q (suc k)) vs

-- The connection's branch is not among those that are left.
abbrev Unasked : List Branch → Type 0
Unasked [] = Unit
Unasked (signal ∷ bs) = Unasked bs
Unasked (connection ∷ bs) = ⊥
Unasked (timer ∷ bs) = Unasked bs

-- It is among them once at most.
abbrev Once : List Branch → Type 0
Once [] = Unit
Once (signal ∷ bs) = Once bs
Once (connection ∷ bs) = Unasked bs
Once (timer ∷ bs) = Once bs

pub order_from-Once : (b : Branch) → Once (order_from b)
order_from-Once signal = tt
order_from-Once connection = tt
order_from-Once timer = tt

module _ {C In E : Type 0} (conn : GracefulConnection C In E) (grace : Option Duration)
    (v : Visit In) where
  select-Unasked :
      (q : ℕ → Poll (Result (Unit {0}) E)) (p : Poll (Result (Unit {0}) E)) (bs : List Branch)
      (d : Drive) (c : C)
      → Unasked bs
      → (select conn grace v bs d c).0 ≡ Drive.select grace (wake v q) p bs d
  unfolding select Drive.select
  select-Unasked q p [] d c h = refl
  select-Unasked q p (signal ∷ bs) d c h =
      elim (Poll-cases (Fuse.poll (poll_cancelled v.cancelled) d.sig).0) [
        | inl e ↦
            rw (e, select, Drive.select)
              (select-Unasked q p bs
                (record d { sig = (Fuse.poll (poll_cancelled v.cancelled) d.sig).1 }) c h)
        | inr (t, e) ↦ rw (e, select, Drive.select) refl
      ]
  select-Unasked q p (connection ∷ bs) d c h = absurd h
  select-Unasked q p (timer ∷ bs) d c h = elim (Bool-cases (poll_sleep v.now d.sleep).0) [
    | inl e ↦ rw (e, select, Drive.select) refl
    | inr e ↦
        rw (e, select, Drive.select)
          (select-Unasked q p bs (record d { sleep = (poll_sleep v.now d.sleep).1 }) c h)
  ]

  pub select-Once :
      (q : ℕ → Poll (Result (Unit {0}) E)) (bs : List Branch) (d : Drive) (c : C)
      → Once bs
      → (select conn grace v bs d c).0 ≡ Drive.select grace (wake v q) (conn.poll v.input c).0 bs d
  unfolding select Drive.select
  select-Once q [] d c h = refl
  select-Once q (signal ∷ bs) d c h =
      elim (Poll-cases (Fuse.poll (poll_cancelled v.cancelled) d.sig).0) [
        | inl e ↦
            rw (e, select, Drive.select)
              (select-Once q bs
                (record d { sig = (Fuse.poll (poll_cancelled v.cancelled) d.sig).1 }) c h)
        | inr (t, e) ↦ rw (e, select, Drive.select) refl
      ]
  select-Once q (connection ∷ bs) d c h = elim (Poll-cases (conn.poll v.input c).0) [
    | inl e ↦
        rw (e, select, Drive.select)
          (select-Unasked q (conn.poll v.input c).0 bs d (conn.poll v.input c).1 h)
    | inr (rv, e) ↦ rw (e, select, Drive.select) refl
  ]
  select-Once q (timer ∷ bs) d c h = elim (Bool-cases (poll_sleep v.now d.sleep).0) [
    | inl e ↦ rw (e, select, Drive.select) refl
    | inr e ↦
        rw (e, select, Drive.select)
          (select-Once q bs (record d { sleep = (poll_sleep v.now d.sleep).1 }) c h)
  ]

-- A `select!` does not read the results of the rounds.
pub select-agree :
    {In E : Type 0} (grace : Option Duration) (v : Visit In) (q q' : ℕ → Poll (Result (Unit {0}) E))
    (p : Poll (Result (Unit {0}) E)) (bs : List Branch) (d : Drive)
    → Drive.select grace (wake v q) p bs d ≡ Drive.select grace (wake v q') p bs d
unfolding Drive.select
select-agree grace v q q' p [] d = refl
select-agree grace v q q' p (signal ∷ bs) d =
    let d' : Drive = record d { sig = (Fuse.poll (poll_cancelled v.cancelled) d.sig).1 } in
    ap
      (λ t. elim (Fuse.poll (poll_cancelled v.cancelled) d.sig).0 [
        | ready _ ↦ again (on_signal grace d')
        | pending ↦ t
      ])
      (select-agree grace v q q' p bs d')
select-agree grace v q q' p (connection ∷ bs) d =
    ap (λ t. elim p [ ready rv ↦ closed d (finished rv) | pending ↦ t ])
      (select-agree grace v q q' p bs d)
select-agree grace v q q' p (timer ∷ bs) d =
    let d' : Drive = record d { sleep = (poll_sleep v.now d.sleep).1 } in
    ap (λ t. elim (poll_sleep v.now d.sleep).0 [ true ↦ on_sleep grace d' | false ↦ t ])
      (select-agree grace v q q' p bs d')

-- What is shown of what follows a round.
abbrev pub then_round : {E : Type 0} → (Drive → Turn E) → Turn E → Turn E
then_round rest (again d) = rest d
then_round rest (suspended d) = suspended d
then_round rest (closed d o) = closed d o

pub then_round-agree :
    {E : Type 0} (r r' : Drive → Turn E) (t : Turn E)
    → ((d : Drive) → r d ≡ r' d)
    → then_round r t ≡ then_round r' t
then_round-agree r r' (again d) h = h d
then_round-agree r r' (suspended d) h = refl
then_round-agree r r' (closed d o) h = refl

rounds-step :
    {E : Type 0} (grace : Option Duration) (fuel i : ℕ) (w : Wake E) (d : Drive)
    → Drive.rounds grace (suc fuel) w i d
      ≡ then_round
          (λ d'. Drive.rounds grace fuel w (suc i) d')
          (Drive.select grace w (w.conn i) (order_from (w.first i)) d)
unfolding Drive.rounds
rounds-step grace fuel i w d = refl
