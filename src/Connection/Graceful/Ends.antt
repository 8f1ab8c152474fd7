-- ===== src/Connection/Graceful/Ends.antt =====
-- When the loop ends, for a connection with a state.
use sui_http.Prelude.{
  ℕ, suc, ◌+◌, ◌≤◌, ◌≡◌, refl, sym, ap, ◌∙◌, subst, true, Option, some, List, [], ◌∷◌, ◌++◌, Result,
  Poll, Duration, All,
}
use sui_http.Connection.Drive.Lifetime.Bounds.{IsClosed, cancelled-IsClosed}
use sui_http.Connection.Drive
use sui_http.Connection.Graceful.{GracefulConnection, Visit, drive_connection}
use sui_http.Connection.Graceful.Turns.{wake, wakes}
use sui_http.Connection.Graceful.Sees.{drive_connection-Sees}

-- The results that are left after some wake-ups.
abbrev later : {In R : Type 0} → List (Visit In) → (ℕ → R) → ℕ → R
later [] q = q
later (v ∷ vs) q = later vs (λ k. q (suc k))

wakes-append :
    {In E : Type 0} (q : ℕ → ℕ → Poll (Result (Unit {0}) E)) (vs us : List (Visit In))
    → wakes q (vs ++ us) ≡ wakes q vs ++ wakes (later vs q) us
wakes-append q [] us = refl
wakes-append q (v ∷ vs) us = ap (λ ws. wake v (q 0) ∷ ws) (wakes-append (λ k. q (suc k)) vs us)

All-wakes :
    {In E : Type 0} (P : ℕ → Type 0) (q : ℕ → ℕ → Poll (Result (Unit {0}) E)) (vs : List (Visit In))
    → All (λ v. P v.now) vs
    → All (λ w. P w.now) (wakes q vs)
All-wakes P q [] h = tt
All-wakes P q (v ∷ vs) (h, hs) = (h, All-wakes P (λ k. q (suc k)) vs hs)

module _ {C In E : Type 0} (conn : GracefulConnection C In E) where
  -- With a grace period `g`: if the token is cancelled at a wake-up `v`, and the task is woken
  -- again at a time `u.now` at least `g` later, then the loop has ended by then, whatever state the
  -- connection keeps and whatever its peer does. The wake-ups before `v` are no later than `v`.
  pub graceful-IsClosed :
      (g : Duration) (age : Option Duration) (vs₁ : List (Visit In)) (v : Visit In)
      (vs₂ : List (Visit In)) (u : Visit In) (vs₃ : List (Visit In)) (c : C)
      → All (λ w. w.now ≤ v.now) vs₁
      → v.cancelled ≡ true
      → v.now + g ≤ u.now
      → IsClosed (drive_connection conn (some g) age (vs₁ ++ (v ∷ vs₂ ++ u ∷ vs₃)) c).0
  graceful-IsClosed g age vs₁ v vs₂ u vs₃ c early cancelled late =
      let (q, e) = drive_connection-Sees conn (some g) age (vs₁ ++ (v ∷ vs₂ ++ u ∷ vs₃)) c in
      let q₁ : ℕ → ℕ → Poll (Result (Unit {0}) E) = later vs₁ q in
      let q₂ : ℕ → ℕ → Poll (Result (Unit {0}) E) = λ k. q₁ (suc k) in
      let q₃ : ℕ → ℕ → Poll (Result (Unit {0}) E) = later vs₂ q₂ in
      let same =
        wakes-append q vs₁ (v ∷ vs₂ ++ u ∷ vs₃)
        ∙ ap (λ ws. wakes q vs₁ ++ (wake v (q₁ 0) ∷ ws)) (wakes-append q₂ vs₂ (u ∷ vs₃)) in
      subst IsClosed (sym (e ∙ ap (Drive.drive_connection (some g) age) same)) (
        cancelled-IsClosed g age (wakes q vs₁) (wake v (q₁ 0)) (wakes q₂ vs₂) (wake u (q₃ 0))
          (wakes (λ k. q₃ (suc k)) vs₃) (All-wakes (λ t. t ≤ v.now) q vs₁ early) cancelled late)
