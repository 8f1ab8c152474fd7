-- ===== src/Tests/States.antt =====
-- States of a server in tests: a TLS connection is accepted, served, and aborted in a forced shutdown.
use sui_http.Prelude.{ℕ, refl, true, Option, some, [], ok, done, panic, ready, arith}
use sui_http.Config.{default}
use sui_http.Connection.Info
use sui_http.Connection.Registry
use sui_http.Server
use sui_http.Server.{Server, serving, stopped, number_of_connections}
use sui_http.Server.Tasks.{
  take_at, keep, update_at, poll_handshake, shaken_with, await_session, finish,
}
use sui_http.Server.Steps.{
  triggered, accepted, shook, handshake_joined, shut_down, aborted, forced, handler_ended, joined,
  drained, Reaches, here, step,
}
use sui_http.Connection.Info.{ConnectionInfo, ConnectInfo}
use sui_http.Connection.Registry.{lookup}

-- Streams and addresses are numbers; the certificate of a TLS stream is its own number.
abbrev pub certificates : ℕ → Option ℕ
certificates stream = some stream

abbrev pub State : Type 0
State = Server ℕ ℕ ℕ ℕ ℕ

abbrev pub s0 : State
s0 = Server.start default true 443

abbrev pub s1 : State
s1 = Server.handle_incomming certificates 64 0 1 5000 s0

abbrev pub s2 : State
s2 = Server.shake 0 1 (ready (done (ok 9))) s1

abbrev pub s3 : State
s3 = Server.on_handshake certificates 64 2 5000 (ok 9) [] s2

abbrev pub s4 : State
s4 = Server.trigger_shutdown s3

abbrev pub s5 : State
s5 = Server.start_grace 3 (Server.begin_shutdown s4)

abbrev pub s6 : State
s6 =
    Server.finish_shutdown (Server.join [] (Server.end_handler 64 panic (Server.force_shutdown s5)))

unfoldable pub running : Unit {0}
unfolding Server.start Server.handle_incomming Server.spawn_handshake Server.shake
    Server.on_handshake Server.handle_connection Server.trigger_shutdown Server.begin_shutdown
    Server.start_grace Server.force_shutdown Server.end_handler Server.join Server.finish_shutdown
    await_session finish Registry.drop take_at keep update_at poll_handshake shaken_with
    Registry.insert Registry.remove Info.new number_of_connections
running = tt

pub served : Reaches certificates s0 s3
unfolding running
served =
    step
      (step (step here (accepted 64 0 1 5000 refl tt refl)) (shook 0 1 (ready (done (ok 9))) refl))
      (handshake_joined 64 2 0 5000 (ok 9) [] refl refl tt refl)

pub begun : Reaches certificates s0 s5
unfolding running
begun =
    step (step (step served (triggered refl)) (shut_down refl refl refl)) (aborted 3 refl refl refl)

pub shut : Reaches certificates s0 s6
unfolding running
shut =
    step
      (step
        (step (step begun (forced 1_000_000_003 1_000_000_003 refl (omega arith) refl))
          (handler_ended 64 panic refl))
        (joined 0 panic [] tt refl refl))
      (drained tt refl refl)
