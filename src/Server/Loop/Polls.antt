-- ===== src/Server/Loop/Polls.antt =====
-- src/lib.rs, `shutdown`: a poll takes it further.
use sui_http.Prelude.{ℕ, ◌+◌, ◌≤◌, ◌≡◌, sym, subst, [], arith}
use sui_http.Server.{
  Server, Phase, serving, aborting, draining, forcing, stopped, crashed,
  connection_shutdown_grace_period,
}
use sui_http.Server.Drain.{unjoined, unreaped, poll_in}
use sui_http.Server.Loop.Stages.{
  HasBegun, HasReaped, HasForced, HasReaped-HasBegun, HasForced-HasReaped,
  graceful_shutdown-HasReaped, graceful_shutdown-late, abort_handshakes-HasBegun,
  abort_handshakes-reaped, abort_handlers-HasForced, abort_handlers-joined,
}

module _ {A I S Certs E : Type 0} where
  pub poll_in-HasBegun :
      (T now : ℕ) (s : Server A I S Certs E) (ph : Phase)
      → s.phase ≡ ph
      → now + connection_shutdown_grace_period ≤ T
      → HasBegun T ph
      → HasBegun T (poll_in ph now s).phase
  unfolding poll_in
  poll_in-HasBegun T now s serving p l h = elim h [ ]
  poll_in-HasBegun T now s aborting p l h = abort_handshakes-HasBegun T now s p l
  poll_in-HasBegun T now s (draining deadline) p l h =
      HasReaped-HasBegun T _ (graceful_shutdown-HasReaped T deadline now s p h)
  poll_in-HasBegun T now s forcing p l h =
      HasReaped-HasBegun T _ (HasForced-HasReaped T _ (abort_handlers-HasForced s p))
  poll_in-HasBegun T now s stopped p l h = subst (HasBegun T) (sym p) h
  poll_in-HasBegun T now s crashed p l h = elim h [ ]

  pub poll_in-reaped :
      (T now : ℕ) (s : Server A I S Certs E) (ph : Phase)
      → s.phase ≡ ph
      → unreaped s.pending_connections ≡ []
      → now + connection_shutdown_grace_period ≤ T
      → HasBegun T ph
      → HasReaped T (poll_in ph now s).phase
  unfolding poll_in
  poll_in-reaped T now s serving p none_left l h = elim h [ ]
  poll_in-reaped T now s aborting p none_left l h = abort_handshakes-reaped T now s none_left l
  poll_in-reaped T now s (draining deadline) p none_left l h =
      graceful_shutdown-HasReaped T deadline now s p h
  poll_in-reaped T now s forcing p none_left l h =
      HasForced-HasReaped T _ (abort_handlers-HasForced s p)
  poll_in-reaped T now s stopped p none_left l h = subst (HasReaped T) (sym p) h
  poll_in-reaped T now s crashed p none_left l h = elim h [ ]

  pub poll_in-HasReaped :
      (T now : ℕ) (s : Server A I S Certs E) (ph : Phase)
      → s.phase ≡ ph
      → HasReaped T ph
      → HasReaped T (poll_in ph now s).phase
  unfolding poll_in
  poll_in-HasReaped T now s serving p h = elim h [ ]
  poll_in-HasReaped T now s aborting p h = elim h [ ]
  poll_in-HasReaped T now s (draining deadline) p h =
      graceful_shutdown-HasReaped T deadline now s p h
  poll_in-HasReaped T now s forcing p h = HasForced-HasReaped T _ (abort_handlers-HasForced s p)
  poll_in-HasReaped T now s stopped p h = subst (HasReaped T) (sym p) h
  poll_in-HasReaped T now s crashed p h = elim h [ ]

  pub poll_in-late :
      (T now : ℕ) (s : Server A I S Certs E) (ph : Phase)
      → s.phase ≡ ph
      → T ≤ now
      → HasReaped T ph
      → HasForced (poll_in ph now s).phase
  unfolding poll_in
  poll_in-late T now s serving p l h = elim h [ ]
  poll_in-late T now s aborting p l h = elim h [ ]
  poll_in-late T now s (draining deadline) p l h =
      graceful_shutdown-late deadline now s (omega (arith, l, h))
  poll_in-late T now s forcing p l h = abort_handlers-HasForced s p
  poll_in-late T now s stopped p l h = subst HasForced (sym p) tt
  poll_in-late T now s crashed p l h = elim h [ ]

  pub poll_in-HasForced :
      (now : ℕ) (s : Server A I S Certs E) (ph : Phase)
      → s.phase ≡ ph
      → HasForced ph
      → HasForced (poll_in ph now s).phase
  unfolding poll_in
  poll_in-HasForced now s serving p h = elim h [ ]
  poll_in-HasForced now s aborting p h = elim h [ ]
  poll_in-HasForced now s (draining deadline) p h = elim h [ ]
  poll_in-HasForced now s forcing p h = abort_handlers-HasForced s p
  poll_in-HasForced now s stopped p h = subst HasForced (sym p) h
  poll_in-HasForced now s crashed p h = elim h [ ]

  pub poll_in-joined :
      (now : ℕ) (s : Server A I S Certs E) (ph : Phase)
      → s.phase ≡ ph
      → unjoined s.connection_handlers ≡ []
      → HasForced ph
      → (poll_in ph now s).phase ≡ stopped
  unfolding poll_in
  poll_in-joined now s serving p none_left h = elim h [ ]
  poll_in-joined now s aborting p none_left h = elim h [ ]
  poll_in-joined now s (draining deadline) p none_left h = elim h [ ]
  poll_in-joined now s forcing p none_left h = abort_handlers-joined s none_left
  poll_in-joined now s stopped p none_left h = p
  poll_in-joined now s crashed p none_left h = elim h [ ]
