-- ===== src/Server/Loop/Stages.antt =====
-- src/lib.rs, `shutdown`: how far a server is in it, at each event.
use sui_http.Prelude.{
  ℕ, ◌+◌, ◌≤◌, ◌≡◌, refl, sym, subst, leb, le→leb, is_empty, Bool-cases, inl, inr, [],
}
use sui_http.Server
use sui_http.Server.{
  Server, Phase, serving, aborting, draining, forcing, stopped, crashed,
  connection_shutdown_grace_period,
}
use sui_http.Server.Drain.{unjoined, unreaped, graceful_shutdown, abort_handshakes, abort_handlers}

-- In the shutdown, with no deadline past `T`.
abbrev pub HasBegun : ℕ → Phase → Type 0
HasBegun T serving = ⊥
HasBegun T aborting = Unit
HasBegun T (draining deadline) = deadline ≤ T
HasBegun T forcing = Unit
HasBegun T stopped = Unit
HasBegun T crashed = ⊥

-- Past the wait for the handshakes.
abbrev pub HasReaped : ℕ → Phase → Type 0
HasReaped T aborting = ⊥
HasReaped T ph = HasBegun T ph

-- Past the grace period.
abbrev pub HasForced : Phase → Type 0
HasForced forcing = Unit
HasForced stopped = Unit
HasForced _ = ⊥

abbrev pub HasLeft : Phase → Type 0
HasLeft serving = ⊥
HasLeft _ = Unit

pub HasBegun-HasLeft : (T : ℕ) (ph : Phase) → HasBegun T ph → HasLeft ph
HasBegun-HasLeft T serving h = h
HasBegun-HasLeft T aborting h = tt
HasBegun-HasLeft T (draining deadline) h = tt
HasBegun-HasLeft T forcing h = tt
HasBegun-HasLeft T stopped h = tt
HasBegun-HasLeft T crashed h = tt

pub HasReaped-HasBegun : (T : ℕ) (ph : Phase) → HasReaped T ph → HasBegun T ph
HasReaped-HasBegun T serving h = h
HasReaped-HasBegun T aborting h = tt
HasReaped-HasBegun T (draining deadline) h = h
HasReaped-HasBegun T forcing h = h
HasReaped-HasBegun T stopped h = h
HasReaped-HasBegun T crashed h = h

pub HasForced-HasReaped : (T : ℕ) (ph : Phase) → HasForced ph → HasReaped T ph
HasForced-HasReaped T serving h = h
HasForced-HasReaped T aborting h = h
HasForced-HasReaped T (draining deadline) h = elim h [ ]
HasForced-HasReaped T forcing h = h
HasForced-HasReaped T stopped h = h
HasForced-HasReaped T crashed h = h

module _ {A I S Certs E : Type 0} where
  pub graceful_shutdown-HasReaped :
      (T deadline now : ℕ) (s : Server A I S Certs E)
      → s.phase ≡ draining deadline
      → deadline ≤ T
      → HasReaped T (graceful_shutdown deadline now s).phase
  unfolding graceful_shutdown Server.join Server.finish_shutdown Server.force_shutdown
  graceful_shutdown-HasReaped T deadline now s p l =
      elim (Bool-cases (is_empty (unjoined s.connection_handlers))) [
        | inl e ↦ rw e tt
        | inr e ↦ elim (Bool-cases (leb deadline now)) [
          | inl late ↦ rw (e, late) tt
          | inr early ↦ rw (e, early) (subst (HasReaped T) (sym p) l)
        ]
      ]

  pub graceful_shutdown-late :
      (deadline now : ℕ) (s : Server A I S Certs E)
      → deadline ≤ now
      → HasForced (graceful_shutdown deadline now s).phase
  unfolding graceful_shutdown Server.join Server.finish_shutdown Server.force_shutdown
  graceful_shutdown-late deadline now s l =
      elim (Bool-cases (is_empty (unjoined s.connection_handlers))) [
        | inl e ↦ rw e tt
        | inr e ↦ rw (e, le→leb deadline now l) tt
      ]

  pub abort_handshakes-HasBegun :
      (T now : ℕ) (s : Server A I S Certs E)
      → s.phase ≡ aborting
      → now + connection_shutdown_grace_period ≤ T
      → HasBegun T (abort_handshakes now s).phase
  unfolding abort_handshakes Server.reap Server.start_grace
  abort_handshakes-HasBegun T now s p l =
      let s' = Server.start_grace now (Server.reap (unreaped s.pending_connections) s) in
      let deadline = now + connection_shutdown_grace_period in
      elim (Bool-cases (is_empty (unreaped s.pending_connections))) [
        | inl e ↦
            rw e (HasReaped-HasBegun T _ (graceful_shutdown-HasReaped T deadline now s' refl l))
        | inr e ↦ rw e (subst (HasBegun T) (sym p) tt)
      ]

  pub abort_handshakes-reaped :
      (T now : ℕ) (s : Server A I S Certs E)
      → unreaped s.pending_connections ≡ []
      → now + connection_shutdown_grace_period ≤ T
      → HasReaped T (abort_handshakes now s).phase
  unfolding abort_handshakes Server.reap Server.start_grace
  abort_handshakes-reaped T now s none_left l =
      let s' = Server.start_grace now (Server.reap [] s) in
      let deadline = now + connection_shutdown_grace_period in
      rw none_left (graceful_shutdown-HasReaped T deadline now s' refl l)

  pub abort_handlers-HasForced :
      (s : Server A I S Certs E) → s.phase ≡ forcing → HasForced (abort_handlers s).phase
  unfolding abort_handlers Server.join Server.finish_shutdown
  abort_handlers-HasForced s p = elim (Bool-cases (is_empty (unjoined s.connection_handlers))) [
    | inl e ↦ rw e tt
    | inr e ↦ rw e (subst HasForced (sym p) tt)
  ]

  pub abort_handlers-joined :
      (s : Server A I S Certs E)
      → unjoined s.connection_handlers ≡ []
      → (abort_handlers s).phase ≡ stopped
  unfolding abort_handlers Server.join Server.finish_shutdown
  abort_handlers-joined s none_left = rw none_left refl
