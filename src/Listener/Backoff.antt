-- ===== src/Listener/Backoff.antt =====
-- src/listener.rs, `AcceptBackoff`, `is_connection_error` and the loop of
-- `<TcpListener as Listener>::accept`. The results of the system's `accept` are a list; the loop
-- returns the durations slept, and the connection if the list holds one.
pub mod Schedule
use sui_http.Prelude.{
  ℕ, ◌*◌, ◌-◌, ◌^◌, Bool, true, false, Option, none, some, List, [], ◌∷◌, Result, ok, err, Run,
  done, panic, Duration, from_millis, from_secs, leb, if◌then◌else◌,
}

-- `std::io::ErrorKind`; the kinds that the code does not name are `other`.
pub data ErrorKind : Type 0 where
  connection_refused connection_aborted connection_reset broken_pipe : ErrorKind
  interrupted would_block timed_out : ErrorKind
  other : ℕ → ErrorKind

unfoldable pub is_connection_error : ErrorKind → Bool
is_connection_error connection_refused = true
is_connection_error connection_aborted = true
is_connection_error connection_reset = true
is_connection_error broken_pipe = true
is_connection_error interrupted = true
is_connection_error would_block = true
is_connection_error timed_out = true
is_connection_error (other _) = false

abbrev pub min_delay : Duration
min_delay = from_millis 5

abbrev pub max_delay : Duration
max_delay = from_secs 1

pub record AcceptBackoff : Type 0 where
  pub next_delay : Duration

unfoldable pub new : AcceptBackoff
new = record { next_delay = min_delay }

-- `Duration::MAX`: 2^64 - 1 seconds and 999,999,999 nanoseconds.
abbrev pub duration_max : Duration
duration_max = 2 ^ 64 * 1_000_000_000 - 1

-- `Duration * u32` panics on overflow.
unfoldable pub mul_duration : Duration → ℕ → Run Duration
mul_duration d n = if leb (d * n) duration_max then done (d * n) else panic

-- `Ord::min`.
unfoldable pub min_duration : Duration → Duration → Duration
min_duration a b = if leb a b then a else b

-- The duration slept, if any, and the backoff afterwards.
unfoldable pub handle_accept_error : AcceptBackoff → ErrorKind → Run (List Duration × AcceptBackoff)
handle_accept_error b e =
    if is_connection_error e then done ([], b) else elim (mul_duration b.next_delay 2) [
      | panic ↦ panic
      | done d ↦ done (b.next_delay ∷ [], record b { next_delay = min_duration d max_delay })
    ]

module _ {C : Type 0} where
  abbrev pub slept_before :
      List Duration → Run (List Duration × Option C) → Run (List Duration × Option C)
  slept_before [] r = r
  slept_before (d ∷ _) panic = panic
  slept_before (d ∷ _) (done (ds, c)) = done (d ∷ ds, c)

  unfoldable pub accept_loop :
      AcceptBackoff → List (Result C ErrorKind) → Run (List Duration × Option C)
  accept_loop b [] = done ([], none)
  accept_loop b (ok tup ∷ attempts) = done ([], some tup)
  accept_loop b (err e ∷ attempts) = elim (handle_accept_error b e) [
    | panic ↦ panic
    | done (slept, b') ↦ slept_before slept (accept_loop b' attempts)
  ]

  unfoldable pub accept : List (Result C ErrorKind) → Run (List Duration × Option C)
  accept attempts = accept_loop new attempts
