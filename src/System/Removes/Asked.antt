-- ===== src/System/Removes/Asked.antt =====
-- A connection whose token is cancelled, by its own `close` or with the server's, in a server with
-- anything else happening.
use sui_http.Prelude.{
  ℕ, ◌+◌, ◌≤◌, ◌≡◌, refl, sym, subst, Bool, true, Option, some, List, ◌∷◌, ◌++◌, Result, Poll,
  Duration, All, arith, inl, inr,
}
use sui_http.Fuse.{new}
use sui_http.Config.{Config}
use sui_http.Connection.Info.{ConnectionId}
use sui_http.Connection.Registry.{lookup}
use sui_http.Connection.Sleep.{Sleep}
use sui_http.Connection.Drive
use sui_http.Connection.Drive.{Wake, Drive}
use sui_http.Connection.Drive.Lifetime.{Triggered, wake_up-Before}
use sui_http.Server
use sui_http.Server.Steps.{here}
use sui_http.Server.Loop.Gone.{Gone}
use sui_http.System
use sui_http.System.{System, Happening, wakes, drive_or, token, run}
use sui_http.System.Runs.{NewAll, run-happenings, NewAll-parts}
use sui_http.System.Known.{SparesId, InTime}
use sui_http.System.Polls.{run-OnWay}
use sui_http.System.Everyone.{run-Everyone, drive_or-Everyone}
use sui_http.System.Removes.{Waiting, granted, seen_at, begun}

-- No timer is asked for before the shutdown.
abbrev AnyTimer : Sleep → Type 0
AnyTimer s = Unit {0}

new_task : (g limit : Duration) (age : Option Duration) → Waiting g AnyTimer limit (Drive.start age)
unfolding Drive.start new
new_task g limit age = inr (refl, refl, tt)

module _ {A I S Certs E H : Type 0} (f : S → Option Certs) where
  -- A server with the tasks of its connections, whose configuration has a grace period `g`, from
  -- its start, with anything happening to them, the data of a new connection never that of a
  -- listed one. If the token of a connection is cancelled when its task is polled at `t₁`, no task
  -- was polled later before, and its task is polled again at `t₂`, at least `g` later, then
  -- `connections` has no entry for it from then on, as long as no new connection is given its id:
  -- whatever its peer does, and whatever happens in between, before and afterwards.
  pub asked-Gone :
      (config : Config) (tls : Bool) (local_addr : A) (id : ConnectionId) (g : Duration)
      (hs₀ : List (Happening A I S E H)) (t₁ : ℕ) (conn₁ : ℕ → Poll (Result (Unit {0}) H))
      (first₁ : ℕ → Drive.Branch) (hs₁ : List (Happening A I S E H)) (t₂ : ℕ)
      (conn₂ : ℕ → Poll (Result (Unit {0}) H)) (first₂ : ℕ → Drive.Branch)
      (hs₂ : List (Happening A I S E H))
      → let y = System.start (Server.start config tls local_addr) in
        let hs = wakes id t₁ conn₁ first₁ ∷ hs₁ ++ wakes id t₂ conn₂ first₂ ∷ hs₂ in
        config.max_connection_age_grace ≡ some g
        → NewAll f (hs₀ ++ hs) y
        → All (InTime (λ t. t ≤ t₁)) hs₀
        → token id (run f hs₀ y).server ≡ true
        → t₁ + g ≤ t₂
        → All (SparesId id) hs₁
        → All (SparesId id) hs₂
        → Gone id (run f (hs₀ ++ hs) y).server
  unfolding System.start
  asked-Gone config tls local_addr id g hs₀ t₁ conn₁ first₁ hs₁ t₂ conn₂ first₂ hs₂ limited fresh
        early cancelled late spares₁ spares₂ =
      let y : System A I S Certs E = System.start (Server.start config tls local_addr) in
      let hs : List (Happening A I S E H) =
        wakes id t₁ conn₁ first₁ ∷ hs₁ ++ wakes id t₂ conn₂ first₂ ∷ hs₂ in
      let (fresh₀, fresh₁) = NewAll-parts f hs₀ hs y fresh in
      let mid = run f hs₀ y in
      let P : Drive → Type 0 = Waiting g AnyTimer (t₁ + g) in
      let all =
        run-Everyone f config tls local_addr P (λ t. t ≤ t₁)
          (new_task g (t₁ + g) config.max_connection_age)
          (λ w d t p.
            granted config g limited P w d
              (wake_up-Before g w AnyTimer AnyTimer (t₁ + g) (omega arith) (λ s u. tt) d p))
          hs₀ y here fresh₀ early tt in
      let d = drive_or config.max_connection_age (lookup id mid.drives) in
      let trigger : Triggered g (seen_at f config tls local_addr id g limited t₁ conn₁ first₁ mid)
          d =
        elim (drive_or-Everyone P id config.max_connection_age mid
          (new_task g (t₁ + g) config.max_connection_age) all) [
            | inl x ↦ inl x
            | inr (x, z, u) ↦ inr (x, inl (cancelled, z))
          ] in
      subst (λ z. Gone id z.server) (sym (run-happenings f hs₀ hs y))
        (begun f config tls local_addr id g limited t₁ conn₁ first₁ hs₁ t₂ conn₂ first₂ hs₂ mid
          (run-OnWay f config tls local_addr hs₀ y fresh₀ here) trigger late spares₁ spares₂ fresh₁)
