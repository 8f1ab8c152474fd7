-- ===== src/Connection/Drive/Rounds.antt =====
-- The loop within one wake-up ends: each further round uses up the signal or enters the grace
-- period. A rule for what holds when it ends.
use sui_http.Prelude.{
  ℕ, zero, suc, ◌+◌, ◌≤◌, ◌<◌, ◌≡◌, refl, Option, none, some, List, [], ◌∷◌, ◌++◌, All, Result,
  Poll, Duration, arith, if◌then◌else◌,
}
use sui_http.Connection.Drive.{
  Wake, Drive, Outcome, Turn, again, suspended, closed, rounds, wake_up, drive,
}
use sui_http.Connection.Drive.Turns.{
  same, polled, Selected, signalled, signalled_late, resolved, aged, expired, nothing,
  select-Selected,
}

abbrev live : Option (Unit {0}) → ℕ
live none = 0
live (some _) = 1

abbrev measure : Drive → ℕ
measure d = live d.sig.inner + (if d.in_grace_period then 0 else 1)

-- A turn's postcondition; `R` is for the state of another round.
abbrev pub Post :
    {E : Type 0}
    → (Drive → Type 0)
    → (Drive → Type 0)
    → (Drive → Outcome E → Type 0)
    → Turn E
    → Type 0
Post R P Q (again d) = R d
Post R P Q (suspended d) = P d
Post R P Q (closed d o) = Q d o

-- The same for a wake-up as a whole, which does not end in `again`.
abbrev pub Ends : {E : Type 0} → (Drive → Type 0) → (Drive → Outcome E → Type 0) → Turn E → Type 0
Ends P Q = Post (λ _. ⊥) P Q

module _ {E : Type 0} (grace : Option Duration) where
  again_lt :
      (w : Wake E) (conn : Poll (Result (Unit {0}) E)) (d : Drive) {t : Turn E} {d' : Drive}
      → Selected grace w conn d t
      → t ≡ again d'
      → measure d' < measure d
  again_lt w conn d (signalled e same h k) a = ground arith
  again_lt w conn d (signalled e polled h k) a = ground arith
  again_lt w conn d (signalled_late e same h k) a = ground arith
  again_lt w conn d (signalled_late e polled h k) a = ground arith
  again_lt w conn d (resolved e rv p h k) a = cc
  again_lt w conn d (aged h g k) a = ground arith
  again_lt w conn d (expired h g k) a = cc
  again_lt w conn d (nothing h q o k) a = cc

  module _ (w : Wake E) (I P : Drive → Type 0) (Q : Drive → Outcome E → Type 0)
      (step : (i : ℕ) (d : Drive) (t : Turn E)
        → I d
        → Selected grace w (w.conn i) d t
        → Post I P Q t) where
    rounds_step :
        (n i : ℕ) (d : Drive) (t : Turn E)
        → Post I P Q t
        → ((d' : Drive) → t ≡ again d' → I d' → Ends P Q (rounds grace n w (suc i) d'))
        → Ends P Q (elim t [
          | again d' ↦ rounds grace n w (suc i) d'
          | suspended d' ↦ suspended d'
          | closed d' o ↦ closed d' o
        ])
    rounds_step n i d (again d') post more = more d' refl post
    rounds_step n i d (suspended d') post more = post
    rounds_step n i d (closed d' o) post more = post

    rounds_rule : (n i : ℕ) (d : Drive) → measure d < n → I d → Ends P Q (rounds grace n w i d)
    unfolding rounds
    rounds_rule zero i d lt h = elim lt [ ]
    rounds_rule (suc n) i d lt h =
        let s = select-Selected grace w (w.conn i) (w.first i) d in
        rounds_step n i d _ (step i d _ h s) λ d' a h'.
          let lt' : measure d' < measure d = again_lt w (w.conn i) d s a in
          rounds_rule n (suc i) d' (omega arith) h'

    measure_le : (d : Drive) → measure d ≤ 2
    measure_le d = ground arith

    -- Three rounds are enough: a wake-up ends suspended with `P` or closed with `Q`.
    pub wake_up_rule : (d : Drive) → I d → Ends P Q (wake_up grace w d)
    unfolding wake_up
    wake_up_rule d h = rounds_rule 3 0 d (omega (arith, measure_le d)) h

  module _ (P P' : Drive → Type 0) (Q : Drive → Outcome E → Type 0) where
    drive_step :
        (ws : List (Wake E)) (t : Turn E)
        → Ends P Q t
        → ((d : Drive) → P d → Ends P' Q (drive grace ws d))
        → Ends P' Q (elim t [
          | again d' ↦ again d'
          | suspended d' ↦ drive grace ws d'
          | closed d' o ↦ closed d' o
        ])
    drive_step ws (again d') h k = absurd h
    drive_step ws (suspended d') h k = k d' h
    drive_step ws (closed d' o) h k = h

    -- One wake-up, then the others.
    pub drive-cons :
        (w : Wake E) (ws : List (Wake E)) (d : Drive)
        → Ends P Q (wake_up grace w d)
        → ((d' : Drive) → P d' → Ends P' Q (drive grace ws d'))
        → Ends P' Q (drive grace (w ∷ ws) d)
    unfolding drive
    drive-cons w ws d h k = drive_step ws _ h k

  module _ (P : Drive → Type 0) (Q : Drive → Outcome E → Type 0) (C : Wake E → Type 0)
      (one : (w : Wake E) (d : Drive) → C w → P d → Ends P Q (wake_up grace w d)) where
    -- What every wake-up of a kind keeps, a list of them keeps, whatever follows.
    pub drive-append :
        (P' : Drive → Type 0) (ws vs : List (Wake E)) (d : Drive)
        → All C ws
        → P d
        → ((d' : Drive) → P d' → Ends P' Q (drive grace vs d'))
        → Ends P' Q (drive grace (ws ++ vs) d)
    drive-append P' [] vs d c h k = k d h
    drive-append P' (w ∷ ws) vs d (c, cs) h k =
        drive-cons P P' Q w (ws ++ vs) d (one w d c h) λ d' h'. drive-append P' ws vs d' cs h' k

    pub drive_rule : (ws : List (Wake E)) (d : Drive) → All C ws → P d → Ends P Q (drive grace ws d)
    unfolding drive
    drive_rule [] d c h = h
    drive_rule (w ∷ ws) d (c, cs) h =
        drive_step P P Q ws _ (one w d c h) λ d' h'. drive_rule ws d' cs h'
