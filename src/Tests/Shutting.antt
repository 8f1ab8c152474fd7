-- ===== src/Tests/Shutting.antt =====
-- Tests of a server's shutdown, and of its handlers' tasks.
use sui_http.Prelude.{
  ℕ, ◌≡◌, ◌⊎◌, refl, ok, ready, pending, true, some, List, panic, [], ◌∷◌, ◌++◌, done, arith,
}
use sui_http.Config.{default}
use sui_http.Connection.Info
use sui_http.Connection.Registry.{lookup}
use sui_http.Server
use sui_http.Server.{Server, forcing, stopped, crashed, number_of_connections}
use sui_http.Server.Io.{peer_certs}
use sui_http.Server.Steps.{
  triggered, shut_down, aborted, forced, handler_ended, joined, drained, Reaches, here, step,
}
use sui_http.Server.Tracked.{Tracked, Reaches-Tracked}
use sui_http.Server.Tracked.Entries.{entries}
use sui_http.Server.Spec
use sui_http.Server.Spec.{Changes, handler_ends, proceeds, view}
use sui_http.Server.Spec.Refines.{Reaches-Changes}
use sui_http.Server.Spec.Shrinks.{draining-Within}
use sui_http.Server.Drain
use sui_http.Server.Drain.{
  poll_in, graceful_shutdown, abort_handshakes, abort_handlers, unreaped, unjoined, poll_shutdown,
  drain,
}
use sui_http.Server.Loop.{
  Event, selects, shakes, triggers, closes, accept, join_pending, token_cancelled, run, act,
  select_in, select, on_pending, on_joined,
}
use sui_http.Server.Loop
use sui_http.Server.Loop.Handshakes.{stalls, run-after_handshake}
use sui_http.Server.Drain.Grace.{drain-idle}
use sui_http.Server.Tokens.{asked}
use sui_http.Server.Configured.{Configured, Reaches-Configured}
use sui_http.Server.Handle.{shutdown, shutdown_outcome}
use sui_http.Tests.States.{certificates, State, s0, s3, s5, s6, running, served, begun, shut}

tracked : Tracked s3
tracked = Reaches-Tracked certificates default true 443 s3 served

tracked5 : Tracked s5
tracked5 = Reaches-Tracked certificates default true 443 s5 begun

forced_end : Reaches certificates s3 s6
unfolding running
forced_end =
    step
      (step
        (step
          (step
            (step (step (step here (triggered refl)) (shut_down refl refl refl))
              (aborted 3 refl refl refl))
            (forced 1_000_000_003 1_000_000_003 refl (omega arith) refl))
          (handler_ended 64 panic refl))
        (joined 0 panic [] tt refl refl))
      (drained tt refl refl)

Reaches-Changes_example :
    Changes
      (view s3)
      (proceeds ∷ proceeds ∷ handler_ends 64 ∷ proceeds ∷ proceeds ∷ proceeds ∷ Spec.triggers ∷ [])
      (view s6)
unfolding forced_end
Reaches-Changes_example = Reaches-Changes certificates s3 s6 forced_end tracked

triggered_again : Reaches certificates s5 (Server.trigger_shutdown s5)
triggered_again = step here (triggered refl)

draining-Within_example : lookup 64 (entries s5.connections) ≡ some (5000, some 9)
unfolding running lookup peer_certs
draining-Within_example =
    draining-Within certificates 1_000_000_003 s5 (Server.trigger_shutdown s5) 64 (5000, some 9)
      tracked5 refl triggered_again refl

-- A connection is accepted and its handshake joined, before the shutdown; the handler does not end.
-- The handshake of another is pending.
abbrev before : List (Event ℕ ℕ ℕ ℕ)
before =
    selects (accept 64 0 1 5000)
    ∷ shakes 0 1 (ready (done (ok 9)))
    ∷ selects (join_pending 64 2 0)
    ∷ selects (accept 65 2 2 5001)
    ∷ triggers
    ∷ []

-- The handshake is over after the second poll only.
abbrev aborting : List (Event ℕ ℕ ℕ ℕ)
aborting = Loop.wakes 3 ∷ Loop.wakes 4 ∷ shakes 0 5 (ready panic) ∷ []

abbrev between : List (Event ℕ ℕ ℕ ℕ)
between = Loop.wakes 7 ∷ selects (accept 66 8 3 5002) ∷ []

-- The handler is aborted.
abbrev dropped : List (Event ℕ ℕ ℕ ℕ)
dropped = Loop.wakes 1_000_000_007 ∷ Loop.handler_ends 64 panic ∷ []

abbrev afterwards : List (Event ℕ ℕ ℕ ℕ)
afterwards = closes 64 ∷ []

unfoldable looping : Unit {0}
unfolding running run act select_in select on_pending on_joined poll_shutdown poll_in
    graceful_shutdown abort_handshakes abort_handlers unreaped unjoined Server.reap
looping = tt

run_test :
    (number_of_connections (run certificates before s0) ≡ 1)
    × (asked 64 (run certificates before s0) ≡ some true)
unfolding looping lookup Info.is_cancelled
run_test = (refl, refl)

-- At the end of the grace period the connection is still listed.
forced_test :
    let es = before ++ (selects token_cancelled ∷ aborting ++ (Loop.wakes 6 ∷ between)) in
    let t : State = run certificates (es ++ (Loop.wakes 1_000_000_006 ∷ [])) s0 in
    (t.phase ≡ forcing) × (number_of_connections t ≡ 1)
unfolding looping
forced_test = (refl, refl)

-- The peer stalls for a minute, and is gone.
run-after_handshake_example :
    run certificates
      (selects (accept 64 0 1 5000) ∷ stalls (20 ∷ 30 ∷ [])
        ++ (shakes 0 60_000_000_020 pending ∷ selects (join_pending 65 60_000_000_021 0) ∷ []))
      s0
    ≡ s0
unfolding running
run-after_handshake_example =
    run-after_handshake certificates s0 64 65 0 (20 ∷ 30 ∷ []) 60_000_000_020 60_000_000_021 1 5000
      pending refl refl (omega arith) (omega arith, (omega arith, tt))

-- The handler of the one connection ends in time.
abbrev in_time : List Drain.Event
in_time = Drain.wakes 4 ∷ Drain.handler_ends 64 (done tt) ∷ []

drain-idle_example : (poll_shutdown 9 (drain in_time s5)).phase ≡ stopped
unfolding running
drain-idle_example =
    drain-idle certificates 1_000_000_003 in_time s5 9 tracked5 refl (omega arith, (tt, tt)) refl

Reaches-Configured_example : Configured default 443 s3
Reaches-Configured_example = Reaches-Configured default 443 certificates true s3 served

shutdown_outcome_example :
    (s6.phase ≡ crashed)
    ⊎ ((s6.cancelled ≡ true) × (s6.connection_handlers ≡ []) × (number_of_connections s6 ≡ 0))
unfolding running shutdown
shutdown_outcome_example = shutdown_outcome certificates default true 443 true s6 shut refl
