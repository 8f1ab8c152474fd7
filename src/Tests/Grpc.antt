-- ===== src/Tests/Grpc.antt =====
-- Tests of the gRPC timeout middleware.
use Prim.Native.String.{String}
use mathlib.Core.Option
use mathlib.Core.Option.{some-injective, none-ne-some}
use sui_http.Prelude.{
  Poll, ready, pending, ℕ, suc, ◌≡◌, ◌↔◌, ◌⊎◌, refl, Option, none, some, [], Result, ok, err, done,
  Duration, from_secs, from_millis, Bytes, codes, arith, parse_u64, parse_digits, scan_u64,
  split_at, zero, ◌+◌, ◌*◌, leb, if◌then◌else◌, sym, ap, ◌∙◌, inl, inr,
}
use sui_http.Prelude.Http.{Response}
use sui_http.Prelude.Polls.{poll_at}
use sui_http.GrpcTimeout.Parse.{
  grpc_timeout_header, try_parse_grpc_timeout, parse_value, parse_text, parse_parts, unit_duration,
}
use sui_http.GrpcTimeout.Parse.Grammar.{IsTimeout, millisecond, nanos}
use sui_http.GrpcTimeout.Parse.Accepts.{Verdict, try_parse_total, try_parse_iff}
use sui_http.GrpcTimeout.Service.{GrpcTimeout, call}
use sui_http.GrpcTimeout.Service.Shortest.{IsShortest, Applies, Shortest, call-IsShortest}
use sui_http.GrpcTimeout.Future.{map_full, timeout_response}
use sui_http.GrpcTimeout.Deadline.{IsTimed, Replies, call-exceeds, call-answers}
use sui_http.GrpcTimeout.Parse.Print.{print_timeout, try_parse-print_timeout}
use sui_http.GrpcTimeout.Body.{MaybeEmptyBody}
use sui_http.Tests.Headers.{http}
use sui_http.Tests.Countdown.{countdown, countdown-pending}

abbrev pub Map : Type 0
Map = String → Option Bytes

abbrev with_timeout : String → Map
with_timeout value = http.insert grpc_timeout_header (codes value) http.new

parse_tests :
    (try_parse_grpc_timeout http (with_timeout "250m") ≡ done (ok (some (from_millis 250))))
    × (try_parse_grpc_timeout http (with_timeout "+5S") ≡ done (ok (some (from_secs 5))))
    × (try_parse_grpc_timeout http (with_timeout "123456789H") ≡ done (err (codes "123456789H")))
    × (try_parse_grpc_timeout http (with_timeout "") ≡ done (err []))
    × (try_parse_grpc_timeout http (with_timeout "S") ≡ done (err (codes "S")))
    × (try_parse_grpc_timeout http http.new ≡ done (ok none))
unfolding try_parse_grpc_timeout parse_value parse_text split_at parse_parts parse_u64 parse_digits
    scan_u64 unit_duration
parse_tests = (refl, refl, refl, refl, refl, refl)

try_parse_total_example :
    ((http.get (with_timeout "250m") grpc_timeout_header ≡ none)
      × (try_parse_grpc_timeout http (with_timeout "250m") ≡ done (ok none)))
    ⊎ ((v : Bytes) × (http.get (with_timeout "250m") grpc_timeout_header ≡ some v)
        × Verdict v (try_parse_grpc_timeout http (with_timeout "250m")))
try_parse_total_example = try_parse_total http (with_timeout "250m")

try_parse_iff_example :
    (try_parse_grpc_timeout http (with_timeout "250m") ≡ done (ok (some (from_millis 250)))) ↔ (
      (v : Bytes) × (http.get (with_timeout "250m") grpc_timeout_header ≡ some v)
      × IsTimeout v (from_millis 250))
try_parse_iff_example = try_parse_iff http (with_timeout "250m") (from_millis 250)

-- A service that counts its calls, and the timers are their durations.
abbrev count_call : ℕ → Map → ℕ × ℕ
count_call n req = (n, suc n)

abbrev no_wait : Duration → Duration
no_wait d = d

abbrev limited : GrpcTimeout ℕ
limited = record { inner = 7; server_timeout = some (from_secs 1) }

call-IsShortest_example :
    (d : Option Duration) × (call http (λ req. req) count_call no_wait limited (with_timeout "250m")
      ≡ done (
        record { inner = 7; sleep = Option.map no_wait d },
        record { inner = 8; server_timeout = some (from_secs 1) },
      ))
    × Shortest (Applies http (λ req. req) count_call no_wait limited (with_timeout "250m")) d
call-IsShortest_example =
    call-IsShortest http (λ req. req) count_call no_wait limited (with_timeout "250m")

abbrev reply : Result (Response Map ℕ) ℕ
reply = ok (record { status = 204; headers = http.new; body = 3 })

-- A timer is its deadline and the number of its next poll; the polls are a second apart.
abbrev pub seconds : ℕ → ℕ
seconds k = from_secs k

abbrev pub timer : Duration → Duration × ℕ
timer d = (d, 0)

abbrev pub poll_timer_at : Duration × ℕ → Poll (Unit {0}) × (Duration × ℕ)
poll_timer_at (d, k) = (if leb d (seconds k) then ready tt else pending, (d, suc k))

timer_shift : (d i k : ℕ) → poll_at poll_timer_at (d, i) k ≡ (poll_timer_at (d, i + k)).0
timer_shift d i zero = ap (λ m. (poll_timer_at (d, m)).0) (omega arith)
timer_shift d i (suc k) = timer_shift d (suc i) k ∙ ap (λ m. (poll_timer_at (d, m)).0) (omega arith)

exact : (d k : ℕ) → poll_at poll_timer_at (timer d) k ≡ (poll_timer_at (0 + d, k)).0
exact d k =
    timer_shift d 0 k
    ∙ ap (λ m. (poll_timer_at (d, m)).0) (omega arith)
    ∙ ap (λ e. (poll_timer_at (e, k)).0) (omega arith)

pub timed : IsTimed timer poll_timer_at 0 seconds (from_millis 1)
timed = (λ d k l. exact d k ∙ ground arith, λ d k l. exact d k ∙ ground arith)

-- The server's timeout is two seconds; the inner future is ready after as many polls.
abbrev service : ℕ → GrpcTimeout ℕ
service polls = record { inner = polls; server_timeout = some (from_secs 2) }

abbrev AppliesTo : GrpcTimeout ℕ → Duration → Type 0
AppliesTo g = Applies http (λ req. req) count_call timer g http.new

two_seconds : (polls : ℕ) (y : Duration) → AppliesTo (service polls) y → y ≡ from_secs 2
two_seconds polls y (inl e) = sym (some-injective (from_secs 2) y e)
two_seconds polls y (inr (v, e, t)) = absurd (none-ne-some v e)

least : IsShortest (AppliesTo (service 4)) (from_secs 2)
least = (inl refl, λ y a. omega (arith, two_seconds 4 y a))

abbrev Answered : GrpcTimeout ℕ → Result (Response Map (MaybeEmptyBody ℕ)) ℕ → Type 0
Answered g =
    Replies http (λ req. req) count_call timer (countdown reply) poll_timer_at 0 seconds
      (from_millis 1) timed g http.new 5

call-exceeds_example : Answered (service 4) (ok (timeout_response http ℕ))
call-exceeds_example =
    call-exceeds http (λ req. req) count_call timer (countdown reply) poll_timer_at 0 seconds
      (from_millis 1) timed (service 4) http.new (from_secs 2) 3 5 least (omega arith)
      (countdown-pending reply 4) (omega arith)

call-answers_example : Answered (service 2) (map_full reply)
call-answers_example =
    call-answers http (λ req. req) count_call timer (countdown reply) poll_timer_at 0 seconds
      (from_millis 1) timed (service 2) http.new reply 2 5 (omega arith) (countdown-pending reply 2)
      refl (λ y a j l. omega (arith, two_seconds 2 y a))

try_parse-print_timeout_example :
    try_parse_grpc_timeout http
      (http.insert grpc_timeout_header (print_timeout 250 millisecond) http.new)
    ≡ done (ok (some (250 * nanos millisecond)))
try_parse-print_timeout_example =
    try_parse-print_timeout http http.new 250 millisecond (omega arith)

abbrev no_body : ℕ → Poll (Option ℕ) × ℕ
no_body b = (pending, b)
