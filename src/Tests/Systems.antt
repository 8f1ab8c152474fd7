-- ===== src/Tests/Systems.antt =====
-- Tests of a server together with the tasks of its connections: a server without TLS whose
-- connections may be a hundred old and have a grace period of ten, and a connection that never ends
-- by itself.
use sui_http.Prelude.{ℕ, ◌≡◌, refl, false, List, [], ◌∷◌, ◌++◌, Result, Poll, pending, arith}
use sui_http.Config.{Config, default}
use sui_http.Config.Setters
use sui_http.Connection.Info
use sui_http.Connection.Registry
use sui_http.Connection.Drive
use sui_http.Connection.Sleep.{sleep_or_pending, poll_sleep}
use sui_http.Fuse
use sui_http.Server
use sui_http.Server.Loop.{accept, act, select_in, select}
use sui_http.Server.Loop.Gone.{Gone}
use sui_http.System
use sui_http.System.{
  System, Happening, selects, closes, wakes, token, work_of, end_task, leave, on_turn, poll_task,
  serve, happen, run,
}
use sui_http.System.Removes.Closed.{closed-Gone}
use sui_http.System.Removes.Aged.{aged-Gone}
use sui_http.Tests.States.{certificates, running}

abbrev limits : Config
limits = Setters.max_connection_age 100 (Setters.max_connection_age_grace 10 default)

abbrev begin : System ℕ ℕ ℕ ℕ ℕ
begin = System.start (Server.start limits false 443)

abbrev Occurrence : Type 0
Occurrence = Happening ℕ ℕ ℕ ℕ ℕ

abbrev never_over : ℕ → Poll (Result (Unit {0}) ℕ)
never_over i = pending

abbrev by_timer : ℕ → Drive.Branch
by_timer i = Drive.timer

abbrev stuck : ℕ → Occurrence
stuck now = wakes 64 now never_over by_timer

abbrev connects : ℕ → Occurrence
connects id = selects (accept id 0 1 5000)

unfoldable together : Unit {0}
unfolding running System.start token work_of end_task leave on_turn poll_task serve happen run act
    select_in select Setters.max_connection_age Setters.max_connection_age_grace Registry.lookup
    Registry.drop Server.end_handler Server.close_connection Server.close_at Info.close
    Info.is_cancelled Drive.wake_up Drive.rounds Drive.select Drive.on_signal Drive.on_sleep
    Drive.start Fuse.new Fuse.poll sleep_or_pending poll_sleep
together = tt

-- The user closes the first connection.
abbrev before : List Occurrence
before = connects 64 ∷ stuck 0 ∷ closes 64 ∷ []

-- Another connects before the grace period is over, and the first peer comes back afterwards.
abbrev closing : List Occurrence
closing = stuck 3 ∷ (connects 65 ∷ []) ++ stuck 13 ∷ closes 65 ∷ []

closed-Gone_example : Gone 64 (run certificates (before ++ closing) begin).server
unfolding together
closed-Gone_example =
    closed-Gone certificates limits false 443 64 10 (connects 64 ∷ stuck 0 ∷ []) (closes 64) [] 3
      never_over by_timer (connects 65 ∷ []) 13 never_over by_timer (closes 65 ∷ []) refl
      (tt, (tt, (tt, (tt, (((λ e. omega arith), tt), (tt, (tt, tt))))))) refl
      (tt, (omega arith, (tt, tt))) (omega arith) tt ((λ e. omega arith), tt) (tt, tt)

other_is_listed :
    Registry.keys (run certificates (before ++ closing) begin).server.connections ≡ 65 ∷ []
unfolding together
other_is_listed = refl

aged-Gone_example :
    Gone 64
      (run certificates
        (connects 64 ∷ stuck 5 ∷ connects 65 ∷ stuck 50 ∷ stuck 105 ∷ stuck 115 ∷ [])
        begin).server
unfolding together
aged-Gone_example =
    aged-Gone certificates limits false 443 64 10 100 (connects 64 ∷ []) 5 never_over by_timer
      (connects 65 ∷ stuck 50 ∷ []) 105 never_over by_timer [] 115 never_over by_timer [] refl refl
      (tt, (tt, (((λ e. omega arith), tt), (tt, (tt, (tt, tt)))))) refl (omega arith) (omega arith)
      (tt, (omega arith, tt)) ((λ e. omega arith), (tt, tt)) tt tt
