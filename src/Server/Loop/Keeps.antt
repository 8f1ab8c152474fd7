-- ===== src/Server/Loop/Keeps.antt =====
-- What stays true of a server that has left its loop, whatever happens to it.
use sui_http.Prelude.{
  ℕ, ◌+◌, ◌≤◌, ◌≡◌, refl, sym, subst, All, arith, true, Option, List, [], ◌∷◌, ◌++◌, if◌then◌else◌,
}
use sui_http.Server
use sui_http.Server.{
  Server, Phase, serving, aborting, draining, forcing, stopped, crashed,
  connection_shutdown_grace_period, number_of_connections,
}
use sui_http.Server.Drain.{poll_in, poll_shutdown}
use sui_http.Server.Loop.Stages.{
  HasBegun, HasReaped, HasForced, HasLeft, HasBegun-HasLeft, HasReaped-HasBegun,
  HasForced-HasReaped,
}
use sui_http.Server.Loop.Polls.{poll_in-HasBegun, poll_in-HasReaped, poll_in-HasForced}
use sui_http.Server.Loop.{
  Branch, token_cancelled, Event, selects, wakes, shakes, handler_ends, triggers, closes, select,
  select_in, act, run,
}

-- A poll at a time, or before it.
abbrev pub IsBy : {A I S E : Type 0} → ℕ → Event A I S E → Type 0
IsBy t (wakes now) = now ≤ t
IsBy t _ = Unit

abbrev IsWake : {A I S E : Type 0} → ℕ → Event A I S E → Type 0
IsWake now (wakes now') = now ≡ now'
IsWake now _ = ⊥

by-early :
    {A I S E : Type 0} (t now : ℕ) (e : Event A I S E)
    → IsBy t e
    → IsWake now e
    → now + connection_shutdown_grace_period ≤ t + connection_shutdown_grace_period
by-early t now (wakes now') b w = omega (arith, b, w)
by-early t now (selects b') b w = elim w [ ]
by-early t now (shakes k at q) b w = elim w [ ]
by-early t now (handler_ends id r) b w = elim w [ ]
by-early t now triggers b w = elim w [ ]
by-early t now (closes id) b w = elim w [ ]

module _ {A I S Certs E : Type 0} (f : S → Option Certs) where
  select_in-stays :
      (ph : Phase) (b : Branch A I) (s : Server A I S Certs E) → HasLeft ph → select_in f ph b s ≡ s
  unfolding select_in
  select_in-stays serving b s h = elim h [ ]
  select_in-stays aborting b s h = refl
  select_in-stays (draining deadline) b s h = refl
  select_in-stays forcing b s h = refl
  select_in-stays stopped b s h = refl
  select_in-stays crashed b s h = refl

  act-stopped :
      (e : Event A I S E) (s : Server A I S Certs E)
      → s.phase ≡ stopped
      → (act f e s).phase ≡ stopped
  unfolding act select_in poll_shutdown poll_in Server.shake Server.end_handler
      Server.trigger_shutdown Server.close_connection
  act-stopped (selects b) s p = subst (λ ph. (select_in f ph b s).phase ≡ stopped) (sym p) p
  act-stopped (wakes now) s p = subst (λ ph. (poll_in ph now s).phase ≡ stopped) (sym p) p
  act-stopped (shakes k now q) s p = p
  act-stopped (handler_ends id r) s p = p
  act-stopped triggers s p = p
  act-stopped (closes id) s p = p

  pub run-stopped :
      (es : List (Event A I S E)) (s : Server A I S Certs E)
      → s.phase ≡ stopped
      → (run f es s).phase ≡ stopped
  unfolding run
  run-stopped [] s p = p
  run-stopped (e ∷ es) s p = run-stopped es (act f e s) (act-stopped e s p)

  pub run-append :
      (es₁ es₂ : List (Event A I S E)) (s : Server A I S Certs E)
      → run f (es₁ ++ es₂) s ≡ run f es₂ (run f es₁ s)
  unfolding run
  run-append [] es₂ s = refl
  run-append (e ∷ es₁) es₂ s = run-append es₁ es₂ (act f e s)

  -- What is true of the phase, and of each poll, stays true: nothing else moves a server that has
  -- left its loop.
  act-keeps :
      (P : Phase → Type 0) (e : Event A I S E) (s : Server A I S Certs E)
      → HasLeft s.phase
      → P s.phase
      → ((now : ℕ) → IsWake now e → P (poll_shutdown now s).phase)
      → P (act f e s).phase
  unfolding act select_in Server.shake Server.end_handler Server.trigger_shutdown
      Server.close_connection
  act-keeps P (selects b) s left h polled =
      subst (λ t. P t.phase) (sym (select_in-stays s.phase b s left)) h
  act-keeps P (wakes now) s left h polled = polled now refl
  act-keeps P (shakes k now q) s left h polled = h
  act-keeps P (handler_ends id r) s left h polled = h
  act-keeps P triggers s left h polled = h
  act-keeps P (closes id) s left h polled = h

  pub run-HasBegun :
      (t₁ : ℕ) (es : List (Event A I S E)) (s : Server A I S Certs E)
      → All (IsBy t₁) es
      → HasBegun (t₁ + connection_shutdown_grace_period) s.phase
      → HasBegun (t₁ + connection_shutdown_grace_period) (run f es s).phase
  unfolding run poll_shutdown
  run-HasBegun t₁ [] s by h = h
  run-HasBegun t₁ (e ∷ es) s (b, by) h =
      let T = t₁ + connection_shutdown_grace_period in
      run-HasBegun t₁ es (act f e s) by (
        act-keeps (HasBegun T) e s (HasBegun-HasLeft T s.phase h) h
          (λ now w. poll_in-HasBegun T now s s.phase refl (by-early t₁ now e b w) h))

  pub run-HasReaped :
      (T : ℕ) (es : List (Event A I S E)) (s : Server A I S Certs E)
      → HasReaped T s.phase
      → HasReaped T (run f es s).phase
  unfolding run poll_shutdown
  run-HasReaped T [] s h = h
  run-HasReaped T (e ∷ es) s h =
      let left = HasBegun-HasLeft T s.phase (HasReaped-HasBegun T s.phase h) in
      run-HasReaped T es (act f e s)
        (act-keeps (HasReaped T) e s left h (λ now w. poll_in-HasReaped T now s s.phase refl h))

  pub run-HasForced :
      (es : List (Event A I S E)) (s : Server A I S Certs E)
      → HasForced s.phase
      → HasForced (run f es s).phase
  unfolding run poll_shutdown
  run-HasForced [] s h = h
  run-HasForced (e ∷ es) s h =
      let left =
        HasBegun-HasLeft 0 s.phase
          (HasReaped-HasBegun 0 s.phase (HasForced-HasReaped 0 s.phase h)) in
      run-HasForced es (act f e s)
        (act-keeps HasForced e s left h (λ now w. poll_in-HasForced now s s.phase refl h))

  pub cancelled-HasBegun :
      (T : ℕ) (s : Server A I S Certs E)
      → s.phase ≡ serving
      → s.cancelled ≡ true
      → HasBegun T (act f (selects token_cancelled) s).phase
  unfolding act select_in select Server.begin_shutdown
  cancelled-HasBegun T s p c =
      subst (λ ph. HasBegun T (select_in f ph token_cancelled s).phase) (sym p)
        (subst (λ b. HasBegun T (if b then Server.begin_shutdown s else s).phase) (sym c) tt)
