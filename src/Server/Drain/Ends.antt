-- ===== src/Server/Drain/Ends.antt =====
-- A poll of `shutdown` waits on, or ends it.
use sui_http.Prelude.{ℕ, ◌<◌, arith, ◌≡◌, ◌⊎◌, sym, subst, leb, is_empty, Bool-cases, inl, inr}
use sui_http.Server
use sui_http.Server.{Server, Phase, serving, draining, stopped, crashed}
use sui_http.Server.Drain.{unjoined, graceful_shutdown, poll_in, poll_shutdown}

module _ {A I S Certs E : Type 0} where
  -- It waits until the deadline, or it is over.
  abbrev pub Waits : ℕ → Server A I S Certs E → Type 0
  Waits deadline s = (s.phase ≡ draining deadline) ⊎ (s.phase ≡ stopped)

  graceful_shutdown-Waits :
      (deadline now : ℕ) (s : Server A I S Certs E)
      → now < deadline
      → s.phase ≡ draining deadline
      → Waits deadline (graceful_shutdown deadline now s)
  unfolding graceful_shutdown Server.join Server.finish_shutdown Server.force_shutdown
  graceful_shutdown-Waits deadline now s early p =
      elim (Bool-cases (is_empty (unjoined s.connection_handlers))) [
        | inl e ↦ inr (rw e)
        | inr e ↦ elim (Bool-cases (leb deadline now)) [
          | inl l ↦ absurd (ground arith)
          | inr l ↦ inl (rw (e, l) p)
        ]
      ]

  pub poll_shutdown-Waits :
      (deadline now : ℕ) (s : Server A I S Certs E)
      → now < deadline
      → Waits deadline s
      → Waits deadline (poll_shutdown now s)
  unfolding poll_shutdown poll_in
  poll_shutdown-Waits deadline now s early (inl p) =
      subst (λ ph. Waits deadline (poll_in ph now s)) (sym p)
        (graceful_shutdown-Waits deadline now s early p)
  poll_shutdown-Waits deadline now s early (inr p) =
      subst (λ ph. Waits deadline (poll_in ph now s)) (sym p) (inr p)
