-- ===== src/Server/Drain/Grace.antt =====
-- The grace period: nobody is cut off before it is over, and it is not waited for in vain.
use sui_http.Prelude.{
  ℕ, ◌<◌, ◌≡◌, refl, sym, ap, ◌∙◌, subst, leb, Option, List, [], ◌∷◌, All, is_empty, Bool-cases,
  inl, inr, arith,
}
use sui_http.Connection.Info.{ConnectionId}
use sui_http.Connection.Registry.{remove}
use sui_http.Server
use sui_http.Server.{Server, Phase, serving, draining, stopped, crashed}
use sui_http.Server.Tasks.{Handler, in_progress, ended}
use sui_http.Server.Tracked.{Tracked}
use sui_http.Server.Tracked.Entries.{entries, in_work, in_work-finish}
use sui_http.Server.Drain.{
  unjoined, Event, handler_ends, wakes, graceful_shutdown, poll_in, poll_shutdown, happen, drain,
}
use sui_http.Server.Drain.Ends.{Waits, poll_shutdown-Waits}

-- Who is left after the handlers that end.
abbrev pub survivors : {V : Type 0} → List Event → List (ConnectionId × V) → List (ConnectionId × V)
survivors [] m = m
survivors (handler_ends id r ∷ es) m = survivors es (remove id m)
survivors (wakes now ∷ es) m = survivors es m

abbrev pub IsEarly : ℕ → Event → Type 0
IsEarly deadline (handler_ends id r) = Unit
IsEarly deadline (wakes now) = now < deadline

pub in_work-unjoined :
    {A Certs : Type 0} (hs : List (Handler A Certs)) → in_work (unjoined hs) ≡ in_work hs
unfolding unjoined
in_work-unjoined [] = refl
in_work-unjoined (in_progress w ∷ hs) = rw (in_work-unjoined hs) refl
in_work-unjoined (ended r ∷ hs) = in_work-unjoined hs

unjoined_nil : {A Certs : Type 0} (hs : List (Handler A Certs)) → in_work hs ≡ [] → unjoined hs ≡ []
unfolding unjoined
unjoined_nil [] h = refl
unjoined_nil (in_progress w ∷ hs) h = grind arith
unjoined_nil (ended r ∷ hs) h = unjoined_nil hs h

module _ {A I S Certs E : Type 0} where
  abbrev working : Server A I S Certs E → List (ConnectionId × (A × Option Certs))
  working s = in_work s.connection_handlers

  graceful_shutdown-early :
      (deadline now : ℕ) (s : Server A I S Certs E)
      → now < deadline
      → working (graceful_shutdown deadline now s) ≡ working s
  unfolding graceful_shutdown Server.join Server.finish_shutdown
  graceful_shutdown-early deadline now s l =
      elim (Bool-cases (is_empty (unjoined s.connection_handlers))) [
        | inl e ↦ rw e (in_work-unjoined s.connection_handlers)
        | inr e ↦ elim (Bool-cases (leb deadline now)) [
          | inl l' ↦ absurd (ground arith)
          | inr l' ↦ rw (e, l') (in_work-unjoined s.connection_handlers)
        ]
      ]

  poll_shutdown-early :
      (deadline now : ℕ) (s : Server A I S Certs E)
      → now < deadline
      → Waits deadline s
      → working (poll_shutdown now s) ≡ working s
  unfolding poll_shutdown poll_in
  poll_shutdown-early deadline now s l (inl p) =
      subst (λ ph. working (poll_in ph now s) ≡ working s) (sym p)
        (graceful_shutdown-early deadline now s l)
  poll_shutdown-early deadline now s l (inr p) =
      subst (λ ph. working (poll_in ph now s) ≡ working s) (sym p) refl

  drain-early :
      (deadline : ℕ) (es : List Event) (s : Server A I S Certs E)
      → All (IsEarly deadline) es
      → Waits deadline s
      → (working (drain es s) ≡ survivors es (working s)) × Waits deadline (drain es s)
  unfolding drain happen Server.end_handler
  drain-early deadline [] s l w = (refl, w)
  drain-early deadline (handler_ends id r ∷ es) s (l, ls) w =
      let (same, w') = drain-early deadline es (happen (handler_ends id r) s) ls w in
      (same ∙ ap (survivors es) (in_work-finish id r s.connection_handlers), w')
  drain-early deadline (wakes now ∷ es) s (l, ls) w =
      let (same, w') =
        drain-early deadline es (poll_shutdown now s) ls (poll_shutdown-Waits deadline now s l w) in
      (same ∙ ap (survivors es) (poll_shutdown-early deadline now s l w), w')

  graceful_shutdown-idle :
      (deadline now : ℕ) (s : Server A I S Certs E)
      → working s ≡ []
      → (graceful_shutdown deadline now s).phase ≡ stopped
  unfolding graceful_shutdown Server.join Server.finish_shutdown
  graceful_shutdown-idle deadline now s h = rw (unjoined_nil s.connection_handlers h) refl

  poll_shutdown-idle :
      (deadline now : ℕ) (s : Server A I S Certs E)
      → Waits deadline s
      → working s ≡ []
      → (poll_shutdown now s).phase ≡ stopped
  unfolding poll_shutdown poll_in
  poll_shutdown-idle deadline now s (inl p) h =
      subst (λ ph. (poll_in ph now s).phase ≡ stopped) (sym p)
        (graceful_shutdown-idle deadline now s h)
  poll_shutdown-idle deadline now s (inr p) h =
      subst (λ ph. (poll_in ph now s).phase ≡ stopped) (sym p) p

module _ {A I S Certs E : Type 0} (f : S → Option Certs) (deadline : ℕ) (es : List Event)
    (s : Server A I S Certs E) where
  drain-left :
      Tracked s
      → s.phase ≡ draining deadline
      → All (IsEarly deadline) es
      → working (drain es s) ≡ survivors es (entries s.connections)
  unfolding Tracked
  drain-left h p early = (drain-early deadline es s early (inl p)).0 ∙ ap (survivors es) (sym h.0)

  -- While a server shuts down and was polled before the deadline only, where at first `connections`
  -- and the handlers agree: once the handlers of all its connections have ended, the next poll,
  -- whenever it is, lets `serve` return.
  pub drain-idle :
      (now : ℕ)
      → Tracked s
      → s.phase ≡ draining deadline
      → All (IsEarly deadline) es
      → survivors es (entries s.connections) ≡ []
      → (poll_shutdown now (drain es s)).phase ≡ stopped
  drain-idle now h p early gone =
      poll_shutdown-idle deadline now (drain es s) (drain-early deadline es s early (inl p)).1
        (drain-left h p early ∙ gone)
