-- ===== src/Tests/Lives.antt =====
-- Tests of the life of a connection.
use sui_http.Prelude.{
  ℕ, ◌+◌, ◌≡◌, List, Poll, Result, if◌then◌else◌, refl, Bool, true, false, none, some, [], ◌∷◌,
  ◌++◌, ok, ready, pending, arith,
}
use sui_http.Fuse
use sui_http.Connection.Sleep.{sleep_or_pending, poll_sleep}
use sui_http.Connection.Graceful
use sui_http.Connection.Graceful.{GracefulConnection, Visit}
use sui_http.Connection.Graceful.Prompt.{prompt-IsFinished}
use sui_http.Connection.Drive
use sui_http.Connection.Drive.{Drive, finished, closed, Wake, signal, timer, drive_connection}
use sui_http.Connection.Drive.Rounds.{Ends}
use sui_http.Connection.Drive.Shutdowns.{Counted, drive_connection-Counted}
use sui_http.Connection.Drive.Lifetime.Bounds.{IsClosed, cancelled-IsClosed, aged-IsClosed}
use sui_http.Connection.Drive.Unforced.{
  IsFinished, Unlimited, Untouched, Unlimited-IsFinished, Untouched-IsFinished,
}

-- The connection never ends by itself.
abbrev pub stuck : ℕ → Bool → Wake ℕ
stuck now cancelled = record {
  now = now;
  cancelled = cancelled;
  conn = λ i. pending;
  first = λ i. timer;
}

-- The connection is over.
abbrev over : ℕ → Bool → Wake ℕ
over now cancelled = record {
  now = now;
  cancelled = cancelled;
  conn = λ i. ready (ok tt);
  first = λ i. signal;
}

drive_connection-Counted_example :
    Ends Counted
      (λ d _. Counted d)
      (drive_connection
        (some 10)
        (some 100)
        (stuck 0 false ∷ stuck 100 false ∷ stuck 105 true ∷ stuck 110 true ∷ []))
drive_connection-Counted_example =
    drive_connection-Counted (some 10) (some 100)
      (stuck 0 false ∷ stuck 100 false ∷ stuck 105 true ∷ stuck 110 true ∷ [])

cancelled-IsClosed_example : IsClosed (
    drive_connection
      (some 10)
      none
      ((stuck 0 false ∷ []) ++ (stuck 3 true ∷ (stuck 5 true ∷ []) ++ stuck 13 true ∷ [])))
cancelled-IsClosed_example =
    cancelled-IsClosed 10 none (stuck 0 false ∷ []) (stuck 3 true) (stuck 5 true ∷ [])
      (stuck 13 true) [] (omega arith, tt) refl (omega arith)

aged-IsClosed_example : IsClosed (
    drive_connection
      (some 10)
      (some 100)
      (stuck 0 false ∷ ((stuck 50 false ∷ []) ++ (stuck 100 false ∷ [] ++ stuck 110 true ∷ []))))
aged-IsClosed_example =
    aged-IsClosed 10 100 (stuck 0 false) (stuck 50 false ∷ []) (stuck 100 false) [] (stuck 110 true)
      [] (omega arith, (omega arith, tt)) (omega arith) (omega arith)

Unlimited-IsFinished_example :
    Ends Unlimited
      (λ _ o. IsFinished o)
      (drive_connection none (some 100) (stuck 0 false ∷ stuck 100 true ∷ over 500 true ∷ []))
Unlimited-IsFinished_example =
    Unlimited-IsFinished (some 100) (stuck 0 false ∷ stuck 100 true ∷ over 500 true ∷ [])

Untouched-IsFinished_example :
    Ends Untouched
      (λ d o. Untouched d × IsFinished o)
      (drive_connection (some 10) none (stuck 0 false ∷ stuck 100 false ∷ over 500 false ∷ []))
Untouched-IsFinished_example =
    Untouched-IsFinished (some 10) (stuck 0 false ∷ stuck 100 false ∷ over 500 false ∷ [])
      (refl, (refl, (refl, tt)))

-- A connection that counts the bytes from its peer, and resolves once it was told to shut down.
abbrev Peer : Type 0
Peer = Bool × ℕ

abbrev poll_peer : ℕ → Peer → Poll (Result (Unit {0}) ℕ) × Peer
poll_peer n (told, bytes) = (if told then ready (ok tt) else pending, (told, bytes + n))

abbrev shut_peer : Peer → Peer
shut_peer (told, bytes) = (true, bytes)

abbrev peer : GracefulConnection Peer ℕ ℕ
peer = record { poll = poll_peer; graceful_shutdown = shut_peer }

abbrev visit : ℕ → Bool → Visit ℕ
visit now cancelled = record { now = now; cancelled = cancelled; input = 7; first = λ i. timer }

abbrev visits : List (Visit ℕ)
visits = visit 0 false ∷ visit 3 true ∷ visit 4 true ∷ []

-- The loop ends in the second wake-up, when two polls have counted.
peer_test :
    (d : Drive) × (Graceful.drive_connection peer (some 10) none visits (false, 0)
      ≡ (closed d (finished (ok tt)), (true, 14)))
unfolding Graceful.drive_connection Graceful.drive Graceful.wake_up Graceful.rounds Graceful.select
    Drive.start Drive.on_signal Fuse.new Fuse.poll sleep_or_pending poll_sleep
peer_test = (_, refl)

prompt-IsFinished_example :
    Ends
      (λ d. d.in_grace_period ≡ false)
      (λ _ o. IsFinished o)
      (Graceful.drive_connection peer (some 10) (some 100) visits (false, 0)).0
prompt-IsFinished_example =
    prompt-IsFinished peer (λ n c. (ok tt, refl)) 10 (omega arith) (some 100) visits (false, 0)
