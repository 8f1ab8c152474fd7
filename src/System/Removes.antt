-- ===== src/System/Removes.antt =====
-- How a connection that is asked to shut down, or is too old, leaves the server.
pub mod Asked
pub mod Aged
pub mod Closed
use sui_http.Prelude.{
  ℕ, ◌+◌, ◌≤◌, ◌≡◌, ◌⊎◌, refl, sym, ap, ◌∙◌, subst, Bool, true, false, Option, none, some, List, [],
  ◌∷◌, ◌++◌, Result, Poll, Duration, All, All-of_each, arith, inl, inr,
}
use sui_http.Fuse.{new}
use sui_http.Config.{Config}
use sui_http.Connection.Info.{ConnectionId}
use sui_http.Connection.Registry.{lookup}
use sui_http.Connection.Sleep.{Sleep, sleep_or_pending, poll_sleep}
use sui_http.Connection.Drive
use sui_http.Connection.Drive.{Wake, Drive, Turn, wake_up}
use sui_http.Connection.Drive.Turns.{unspent}
use sui_http.Connection.Drive.Rounds.{Ends}
use sui_http.Connection.Drive.Lifetime.{
  Any, Due, Timed, Armed, Graced, Triggered, poll_sleep-kept, poll_sleep-Due, wake_up-Before,
  wake_up-Triggered, wake_up-Armed, wake_up-late,
}
use sui_http.Server
use sui_http.Server.{Server}
use sui_http.Server.Steps.{here}
use sui_http.Server.Loop.Gone.{Gone}
use sui_http.System
use sui_http.System.{System, Happening, wakes, drive_or, token, work_of, poll_task, happen, run}
use sui_http.System.Runs.{NewAll, run-happenings, NewAll-parts}
use sui_http.System.Known.{SparesId, InTime, InTime-any, Known}
use sui_http.System.Polls.{OnWay, happen-OnWay, run-OnWay, polled, run-Known, run-Gone}
use sui_http.System.Everyone.{Everyone, run-Everyone, drive_or-Everyone}

-- Before the shutdown of a connection, `D` holds of its timer; after that the grace period is over
-- at `limit` at the latest.
abbrev pub Waiting : Duration → (Sleep → Type 0) → ℕ → Drive → Type 0
Waiting g D limit d =
    Graced g limit d ⊎ ((d.in_grace_period ≡ false) × (d.sig ≡ unspent) × D d.sleep)

module _ {H : Type 0} (config : Config) (g : Duration)
    (limited : config.max_connection_age_grace ≡ some g) where
  pub granted :
      (P : Drive → Type 0) (w : Wake H) (d : Drive)
      → Ends P (λ _ _. Unit {0}) (wake_up (some g) w d)
      → Ends P (λ _ _. Unit {0}) (wake_up config.max_connection_age_grace w d)
  granted P w d h = subst (λ o. Ends P (λ _ _. Unit {0}) (wake_up o w d)) (sym limited) h

module _ {A I S Certs E H : Type 0} (f : S → Option Certs) (config : Config) (tls : Bool)
    (local_addr : A) (id : ConnectionId) (g : Duration)
    (limited : config.max_connection_age_grace ≡ some g) where
  -- The wake-up that the task of the connection sees.
  abbrev pub seen_at :
      ℕ → (ℕ → Poll (Result (Unit {0}) H)) → (ℕ → Drive.Branch) → System A I S Certs E → Wake H
  seen_at now conn first y = record {
    now = now;
    cancelled = token id y.server;
    conn = conn;
    first = first;
  }

  module _ (now : ℕ) (conn : ℕ → Poll (Result (Unit {0}) H)) (first : ℕ → Drive.Branch)
      (hs : List (Happening A I S E H)) (y : System A I S Certs E)
      (r : OnWay f config tls local_addr y) where
    -- A poll of the task, and what happens after it.
    pub after_poll :
        (P : Drive → Type 0) (C : ℕ → Type 0)
        → ((w : Wake H) (d : Drive)
            → C w.now
            → P d
            → Ends P (λ _ _. Unit {0}) (wake_up (some g) w d))
        → Ends P
            (λ _ _. Unit {0})
            (wake_up
              (some g)
              (seen_at now conn first y)
              (drive_or config.max_connection_age (lookup id y.drives)))
        → NewAll f (wakes id now conn first ∷ hs) y
        → All (SparesId id) hs
        → All (InTime C) hs
        → Known P id (run f (wakes id now conn first ∷ hs) y)
    unfolding run happen
    after_poll P C keeps ends (n, fresh) spares c =
        run-Known f config tls local_addr id P C
          (λ w d t p. granted config g limited P w d (keeps w d t p)) hs
          (happen f (wakes id now conn first) y)
          (happen-OnWay f config tls local_addr (wakes id now conn first) y n r) fresh spares c
          (polled f config tls local_addr id P (seen_at now conn first y) y r
            (granted config g limited P _ _ ends) (work_of id y.server.connection_handlers) refl)

    any_time : All (InTime (λ _. Unit {0})) hs
    any_time = All-of_each (InTime (λ _. Unit {0})) hs InTime-any

    -- A poll past the deadline.
    at_end :
        (limit : ℕ)
        → limit ≤ now
        → NewAll f (wakes id now conn first ∷ hs) y
        → All (SparesId id) hs
        → Known (Armed limit) id y
        → Gone id (run f (wakes id now conn first ∷ hs) y).server
    at_end limit late fresh spares k = elim k [
      | inl gone ↦
          run-Gone f config tls local_addr id (wakes id now conn first ∷ hs) y r fresh (tt, spares)
            gone
      | inr (d, e, p) ↦
          elim (after_poll (λ _. ⊥) (λ _. Unit {0}) (λ w d t bad. absurd bad)
            (subst
              (λ o.
                Ends (λ _. ⊥) (λ _ _. Unit {0})
                  (wake_up (some g) (seen_at now conn first y)
                    (drive_or config.max_connection_age o)))
              (sym e) (wake_up-late g (seen_at now conn first y) limit d late p))
            fresh spares any_time) [ inl gone ↦ gone | inr (d', e', bad) ↦ absurd bad ]
    ]

  -- From a poll at `t₁` that begins the shutdown of the connection, past the end of its grace.
  pub begun :
      (t₁ : ℕ) (conn₁ : ℕ → Poll (Result (Unit {0}) H)) (first₁ : ℕ → Drive.Branch)
      (hs₁ : List (Happening A I S E H)) (t₂ : ℕ) (conn₂ : ℕ → Poll (Result (Unit {0}) H))
      (first₂ : ℕ → Drive.Branch) (hs₂ : List (Happening A I S E H)) (y : System A I S Certs E)
      → OnWay f config tls local_addr y
      → Triggered g
          (seen_at t₁ conn₁ first₁ y)
          (drive_or config.max_connection_age (lookup id y.drives))
      → t₁ + g ≤ t₂
      → All (SparesId id) hs₁
      → All (SparesId id) hs₂
      → let hs = wakes id t₁ conn₁ first₁ ∷ hs₁ ++ wakes id t₂ conn₂ first₂ ∷ hs₂ in
        NewAll f hs y → Gone id (run f hs y).server
  begun t₁ conn₁ first₁ hs₁ t₂ conn₂ first₂ hs₂ y r trigger late spares₁ spares₂ fresh =
      let ks : List (Happening A I S E H) = wakes id t₁ conn₁ first₁ ∷ hs₁ in
      let ks' : List (Happening A I S E H) = wakes id t₂ conn₂ first₂ ∷ hs₂ in
      let (fresh₁, fresh₂) = NewAll-parts f ks ks' y fresh in
      let armed =
        after_poll t₁ conn₁ first₁ hs₁ y r (Armed (t₁ + g)) (λ _. Unit {0})
          (λ w d t p. wake_up-Armed g w (t₁ + g) d p) (wake_up-Triggered g _ _ trigger) fresh₁
          spares₁ (any_time t₁ conn₁ first₁ hs₁ y r) in
      subst (λ z. Gone id z.server) (sym (run-happenings f ks ks' y))
        (at_end t₂ conn₂ first₂ hs₂ (run f ks y) (run-OnWay f config tls local_addr ks y fresh₁ r)
          (t₁ + g) late fresh₂ spares₂ armed)
