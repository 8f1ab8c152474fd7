-- ===== src/Connection/Graceful/Sees.antt =====
-- A connection with a state, as the driver sees it: the result of its poll in each round.
use sui_http.Prelude.{
  ℕ, zero, suc, ◌≤◌, ◌≡◌, refl, sym, ap, ◌∙◌, ◌==◌, Option, List, [], ◌∷◌, Result, Poll, pending,
  Duration, if◌then◌else◌, arith,
}
use sui_http.Connection.Drive
use sui_http.Connection.Drive.{
  Branch, signal, connection, timer, order_from, Wake, Drive, finished, Turn, again, suspended,
  closed, poll_cancelled, on_signal, on_sleep,
}
use sui_http.Connection.Graceful.Turns.{
  wake, wakes, order_from-Once, select-Once, select-agree, then_round, then_round-agree,
}
use sui_http.Connection.Graceful.{
  GracefulConnection, Visit, select, rounds, wake_up, drive, drive_connection, after_round,
  after_wake,
}

-- The result of round `i` set to `p`.
abbrev set_round : {R : Type 0} → ℕ → R → (ℕ → R) → ℕ → R
set_round i p q j = if j == i then p else q j

set_round-same : {R : Type 0} (i : ℕ) (p : R) (q : ℕ → R) → set_round i p q i ≡ p
set_round-same i p q = ground arith

set_round-later : {R : Type 0} (i j : ℕ) (p : R) (q : ℕ → R) → suc i ≤ j → q j ≡ set_round i p q j
set_round-later i j p q l = ground arith

module _ {In E : Type 0} (grace : Option Duration) (v : Visit In)
    (q q' : ℕ → Poll (Result (Unit {0}) E)) where
  rounds-agree :
      (fuel i : ℕ) (d : Drive)
      → ((j : ℕ) → i ≤ j → q j ≡ q' j)
      → Drive.rounds grace fuel (wake v q) i d ≡ Drive.rounds grace fuel (wake v q') i d
  unfolding Drive.rounds
  rounds-agree zero i d h = refl
  rounds-agree (suc fuel) i d h =
      let bs = order_from (v.first i) in
      then_round-agree (λ d'. Drive.rounds grace fuel (wake v q) (suc i) d')
        (λ d'. Drive.rounds grace fuel (wake v q') (suc i) d')
        (Drive.select grace (wake v q) (q i) bs d)
        (λ d'. rounds-agree fuel (suc i) d' (λ j l. h j (omega arith)))
      ∙ ap (then_round (λ d'. Drive.rounds grace fuel (wake v q') (suc i) d')) (
          select-agree grace v q q' (q i) bs d
          ∙ ap (λ p. Drive.select grace (wake v q') p bs d) (h i (omega arith)))

module _ {C In E : Type 0} (conn : GracefulConnection C In E) (grace : Option Duration)
    (v : Visit In) where
  -- The rounds of a wake-up are those that see the results of the connection's polls.
  abbrev pub Seen : ℕ → ℕ → Drive → C → (ℕ → Poll (Result (Unit {0}) E)) → Type 0
  Seen fuel i d c q = (rounds conn grace fuel v i d c).0 ≡ Drive.rounds grace fuel (wake v q) i d

  after_round-Sees :
      (fuel i : ℕ) (t : Turn E × C)
      → ((d : Drive) (c : C) → (q : ℕ → Poll (Result (Unit {0}) E)) × Seen fuel i d c q)
      → (q : ℕ → Poll (Result (Unit {0}) E)) × ((after_round conn grace
            (λ d c. rounds conn grace fuel v i d c)
            t).0
          ≡ then_round (λ d. Drive.rounds grace fuel (wake v q) i d) t.0)
  after_round-Sees fuel i (again d, c) more = more d c
  after_round-Sees fuel i (suspended d, c) more = (λ _. pending, refl)
  after_round-Sees fuel i (closed d o, c) more = (λ _. pending, refl)

  pub rounds-Sees :
      (fuel i : ℕ) (d : Drive) (c : C) → (q : ℕ → Poll (Result (Unit {0}) E)) × Seen fuel i d c q
  unfolding rounds Drive.rounds
  rounds-Sees zero i d c = (λ _. pending, refl)
  rounds-Sees (suc fuel) i d c =
      let bs = order_from (v.first i) in
      let t = select conn grace v bs d c in
      let (q, e) = after_round-Sees fuel (suc i) t (λ d' c'. rounds-Sees fuel (suc i) d' c') in
      let p = (conn.poll v.input c).0 in
      let q' = set_round i p q in
      (
        q',
        e
            ∙ then_round-agree (λ d'. Drive.rounds grace fuel (wake v q) (suc i) d')
                (λ d'. Drive.rounds grace fuel (wake v q') (suc i) d') t.0
                (λ d'. rounds-agree grace v q q' fuel (suc i) d' (λ j l. set_round-later i j p q l))
            ∙ ap (then_round (λ d'. Drive.rounds grace fuel (wake v q') (suc i) d')) (
                select-Once conn grace v q' bs d c (order_from-Once (v.first i))
                ∙ ap (λ r. Drive.select grace (wake v q') r bs d) (sym (set_round-same i p q))),
      )

-- The results of the first wake-up, and those of the others.
abbrev front : {R : Type 0} → R → (ℕ → R) → ℕ → R
front q qs zero = q
front q qs (suc k) = qs k

abbrev then_wake : {E : Type 0} → (Drive → Turn E) → Turn E → Turn E
then_wake rest (again d) = again d
then_wake rest (suspended d) = rest d
then_wake rest (closed d o) = closed d o

module _ {C In E : Type 0} (conn : GracefulConnection C In E) (grace : Option Duration) where
  abbrev pub SeenAll : List (Visit In) → Drive → C → (ℕ → ℕ → Poll (Result (Unit {0}) E)) → Type 0
  SeenAll vs d c qs = (drive conn grace vs d c).0 ≡ Drive.drive grace (wakes qs vs) d

  after_wake-Sees :
      (vs : List (Visit In)) (t : Turn E × C)
      → ((d : Drive) (c : C) → (qs : ℕ → ℕ → Poll (Result (Unit {0}) E)) × SeenAll vs d c qs)
      → (qs : ℕ → ℕ → Poll (Result (Unit {0}) E)) × ((after_wake conn grace
            (λ d c. drive conn grace vs d c)
            t).0
          ≡ then_wake (λ d. Drive.drive grace (wakes qs vs) d) t.0)
  after_wake-Sees vs (again d, c) more = (λ _ _. pending, refl)
  after_wake-Sees vs (suspended d, c) more = more d c
  after_wake-Sees vs (closed d o, c) more = (λ _ _. pending, refl)

  drive-Sees :
      (vs : List (Visit In)) (d : Drive) (c : C)
      → (qs : ℕ → ℕ → Poll (Result (Unit {0}) E)) × SeenAll vs d c qs
  unfolding drive wake_up Drive.drive Drive.wake_up
  drive-Sees [] d c = (λ _ _. pending, refl)
  drive-Sees (v ∷ vs) d c =
      let (q, e) = rounds-Sees conn grace v 3 0 d c in
      let (qs, es) = after_wake-Sees vs (wake_up conn grace v d c) (λ d' c'. drive-Sees vs d' c') in
      (front q qs, es ∙ ap (then_wake (λ d'. Drive.drive grace (wakes qs vs) d')) e)

  -- Whatever connection is driven, `drive_connection` does what the driver does that sees the
  -- results of the connection's polls alone, at the same times, with the same token, and the same
  -- choices of `select!`.
  pub drive_connection-Sees :
      (age : Option Duration) (vs : List (Visit In)) (c : C)
      → (qs : ℕ → ℕ → Poll (Result (Unit {0}) E)) × ((drive_connection conn grace age vs c).0
          ≡ Drive.drive_connection grace age (wakes qs vs))
  unfolding drive_connection Drive.drive_connection
  drive_connection-Sees age vs c = drive-Sees vs (Drive.start age) c
