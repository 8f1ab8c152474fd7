-- ===== src/System/Removes/Aged.antt =====
-- A connection that has reached the server's maximum age, in a server with anything else happening.
use sui_http.Prelude.{
  ℕ, ◌+◌, ◌≤◌, ◌≡◌, refl, sym, ap, ◌∙◌, subst, Bool, Option, none, some, List, ◌∷◌, ◌++◌, Result,
  Poll, Duration, All, All-append, arith, inl, inr,
}
use sui_http.Fuse.{new}
use sui_http.Config.{Config}
use sui_http.Connection.Info.{ConnectionId}
use sui_http.Connection.Registry.{lookup}
use sui_http.Connection.Sleep.{sleep_or_pending}
use sui_http.Connection.Drive
use sui_http.Connection.Drive.{Wake, Drive, wake_up}
use sui_http.Connection.Drive.Rounds.{Ends}
use sui_http.Connection.Drive.Lifetime.{
  Due, Timed, Triggered, poll_sleep-kept, poll_sleep-Due, wake_up-Before,
}
use sui_http.Server
use sui_http.Server.Steps.{here}
use sui_http.Server.Loop.Gone.{Gone}
use sui_http.System
use sui_http.System.{System, Happening, wakes, drive_or, run}
use sui_http.System.Runs.{NewAll, run-happenings, NewAll-parts}
use sui_http.System.Known.{SparesId, InTime, Known}
use sui_http.System.Polls.{OnWay, run-OnWay, run-Gone}
use sui_http.System.Removes.{Waiting, seen_at, after_poll, begun}

module _ {A I S Certs E H : Type 0} (f : S → Option Certs) (config : Config) (tls : Bool)
    (local_addr : A) (id : ConnectionId) (g a : Duration)
    (limited : config.max_connection_age_grace ≡ some g)
    (aged : config.max_connection_age ≡ some a) where
  -- From the first poll of the task, at `t₀`, its age timer is due at `t₀ + a`.
  first_poll :
      (t₀ : ℕ) (conn₀ : ℕ → Poll (Result (Unit {0}) H)) (first₀ : ℕ → Drive.Branch)
      (hs₁ : List (Happening A I S E H)) (t₁ : ℕ) (y : System A I S Certs E)
      → OnWay f config tls local_addr y
      → lookup id y.drives ≡ none
      → t₀ ≤ t₁
      → All (SparesId id) hs₁
      → All (InTime (λ t. t ≤ t₁)) hs₁
      → NewAll f (wakes id t₀ conn₀ first₀ ∷ hs₁) y
      → Known (Waiting g (Due (t₀ + a)) (t₁ + g)) id (run f (wakes id t₀ conn₀ first₀ ∷ hs₁) y)
  unfolding Drive.start new sleep_or_pending
  first_poll t₀ conn₀ first₀ hs₁ t₁ y r unpolled l spares early fresh =
      let w = seen_at f config tls local_addr id g limited t₀ conn₀ first₀ y in
      let P : Drive → Type 0 = Waiting g (Due (t₀ + a)) (t₁ + g) in
      let begins : Ends P (λ _ _. Unit {0}) (wake_up (some g) w (drive_or (some a) none)) =
        wake_up-Before g w (Timed a (t₀ + a)) (Due (t₀ + a)) (t₁ + g) (omega arith)
          (λ s. poll_sleep-Due a t₀ (t₀ + a) s (omega arith)) (Drive.start (some a))
          (inr (refl, refl, inl refl)) in
      after_poll f config tls local_addr id g limited t₀ conn₀ first₀ hs₁ y r P (λ t. t ≤ t₁)
        (λ u d le p.
          wake_up-Before g u (Due (t₀ + a)) (Due (t₀ + a)) (t₁ + g) (omega arith)
            (λ s. poll_sleep-kept u.now (t₀ + a) s) d p)
        (subst (λ z. Ends P (λ _ _. Unit {0}) (wake_up (some g) w z))
          (sym (ap (λ o. drive_or o (lookup id y.drives)) aged ∙ ap (drive_or (some a)) unpolled))
          begins)
        fresh spares early

  -- From a poll at `t₁`, when the age timer is due, past the end of the grace period.
  too_old :
      (t₀ t₁ : ℕ) (conn₁ : ℕ → Poll (Result (Unit {0}) H)) (first₁ : ℕ → Drive.Branch)
      (hs₂ : List (Happening A I S E H)) (t₂ : ℕ) (conn₂ : ℕ → Poll (Result (Unit {0}) H))
      (first₂ : ℕ → Drive.Branch) (hs₃ : List (Happening A I S E H)) (y : System A I S Certs E)
      → OnWay f config tls local_addr y
      → Known (Waiting g (Due (t₀ + a)) (t₁ + g)) id y
      → t₀ + a ≤ t₁
      → t₁ + g ≤ t₂
      → All (SparesId id) hs₂
      → All (SparesId id) hs₃
      → let hs = wakes id t₁ conn₁ first₁ ∷ hs₂ ++ wakes id t₂ conn₂ first₂ ∷ hs₃ in
        NewAll f hs y → Gone id (run f hs y).server
  too_old t₀ t₁ conn₁ first₁ hs₂ t₂ conn₂ first₂ hs₃ y r (inl gone) old late spares₂ spares₃ fresh =
      let ks : List (Happening A I S E H) =
        wakes id t₁ conn₁ first₁ ∷ hs₂ ++ wakes id t₂ conn₂ first₂ ∷ hs₃ in
      run-Gone f config tls local_addr id ks y r fresh
        (tt, All-append (SparesId id) hs₂ (wakes id t₂ conn₂ first₂ ∷ hs₃) spares₂ (tt, spares₃))
        gone
  too_old t₀ t₁ conn₁ first₁ hs₂ t₂ conn₂ first₂ hs₃ y r (inr (d, e, p)) old late spares₂ spares₃
        fresh =
      let w = seen_at f config tls local_addr id g limited t₁ conn₁ first₁ y in
      let trigger : Triggered g w d = elim p [
        | inl x ↦ inl x
        | inr (x, _, (t, k, l)) ↦ inr (x, inr (t, k, omega arith))
      ] in
      begun f config tls local_addr id g limited t₁ conn₁ first₁ hs₂ t₂ conn₂ first₂ hs₃ y r
        (subst (λ o. Triggered g w (drive_or config.max_connection_age o)) (sym e) trigger) late
        spares₂ spares₃ fresh

-- A server with the tasks of its connections, whose configuration has a maximum age `a` and a grace
-- period `g`, from its start, with anything happening to them, the data of a new connection never
-- that of a listed one. If the task of a connection is first polled at `t₀`, again at `t₁`, at least
-- `a` later, no task later than `t₁` in between, and again at `t₂`, at least `g` later, then
-- `connections` has no entry for it from then on, as long as no new connection is given its id:
-- whether or not anyone is asked to shut down.
pub aged-Gone :
    {A I S Certs E H : Type 0} (f : S → Option Certs) (config : Config) (tls : Bool)
    (local_addr : A) (id : ConnectionId) (g a : Duration) (hs₀ : List (Happening A I S E H))
    (t₀ : ℕ) (conn₀ : ℕ → Poll (Result (Unit {0}) H)) (first₀ : ℕ → Drive.Branch)
    (hs₁ : List (Happening A I S E H)) (t₁ : ℕ) (conn₁ : ℕ → Poll (Result (Unit {0}) H))
    (first₁ : ℕ → Drive.Branch) (hs₂ : List (Happening A I S E H)) (t₂ : ℕ)
    (conn₂ : ℕ → Poll (Result (Unit {0}) H)) (first₂ : ℕ → Drive.Branch)
    (hs₃ : List (Happening A I S E H))
    → let y : System A I S Certs E = System.start (Server.start config tls local_addr) in
      let old = wakes id t₁ conn₁ first₁ ∷ hs₂ ++ wakes id t₂ conn₂ first₂ ∷ hs₃ in
      let hs = hs₀ ++ (wakes id t₀ conn₀ first₀ ∷ hs₁ ++ old) in
      config.max_connection_age_grace ≡ some g
      → config.max_connection_age ≡ some a
      → NewAll f hs y
      → lookup id (run f hs₀ y).drives ≡ none
      → t₀ + a ≤ t₁
      → t₁ + g ≤ t₂
      → All (InTime (λ t. t ≤ t₁)) hs₁
      → All (SparesId id) hs₁
      → All (SparesId id) hs₂
      → All (SparesId id) hs₃
      → Gone id (run f hs y).server
unfolding System.start
aged-Gone {A} {I} {S} {Certs} {E} {H} f config tls local_addr id g a hs₀ t₀ conn₀ first₀ hs₁ t₁
      conn₁ first₁ hs₂ t₂ conn₂ first₂ hs₃ limited aged fresh unpolled old late early spares₁
      spares₂ spares₃ =
    let y : System A I S Certs E = System.start (Server.start config tls local_addr) in
    let ks : List (Happening A I S E H) = wakes id t₀ conn₀ first₀ ∷ hs₁ in
    let ks' : List (Happening A I S E H) =
      wakes id t₁ conn₁ first₁ ∷ hs₂ ++ wakes id t₂ conn₂ first₂ ∷ hs₃ in
    let (fresh₀, rest) = NewAll-parts f hs₀ (ks ++ ks') y fresh in
    let mid = run f hs₀ y in
    let r = run-OnWay f config tls local_addr hs₀ y fresh₀ here in
    let (fresh₁, fresh₂) = NewAll-parts f ks ks' mid rest in
    let known =
      first_poll f config tls local_addr id g a limited aged t₀ conn₀ first₀ hs₁ t₁ mid r unpolled
        (omega arith) spares₁ early fresh₁ in
    subst (λ z. Gone id z.server)
      (sym (run-happenings f hs₀ (ks ++ ks') y ∙ run-happenings f ks ks' mid))
      (too_old f config tls local_addr id g a limited aged t₀ t₁ conn₁ first₁ hs₂ t₂ conn₂ first₂
        hs₃ (run f ks mid) (run-OnWay f config tls local_addr ks mid fresh₁ r) known old late
        spares₂ spares₃ fresh₂)
