-- ===== src/Tests/Layers.antt =====
-- Tests of the two middlewares stacked: a server's timeout of two seconds, a poll each second, and
-- a handler that keeps the calls.
use mathlib.Core.Option.{some-injective, none-ne-some}
use sui_http.Prelude.{
  ℕ, ◌≤◌, ◌≡◌, refl, sym, Option, none, some, List, [], ◌∷◌, Result, ok, done, Poll, ready, false,
  Duration, from_secs, from_millis, codes, take, inl, inr, arith,
}
use sui_http.Prelude.Http.{Response}
use sui_http.Prelude.Polls.{poll_at, results, after}
use sui_http.GrpcTimeout.Body.{MaybeEmptyBody}
use sui_http.GrpcTimeout.Service.{GrpcTimeout}
use sui_http.GrpcTimeout.Service.Shortest.{IsShortest, Applies}
use sui_http.GrpcTimeout.Future.{grpc_status_header}
use sui_http.Callback.Handler.{ResponseHandler, MakeCallbackHandler}
use sui_http.Callback.Calls.{Call, end_of_stream, tell, chunks, errors, ends}
use sui_http.Callback.Body.{RequestBody, ResponseBody}
use sui_http.Callback.Body.Log.{flat, data_of, error_of, end_of}
use sui_http.Callback.Response
use sui_http.Callback.Future
use sui_http.Callback.Service.{Callback}
use sui_http.Stacked.Calls.{head_of, timeout_poll, inner_request, stacked, poll_body}
use sui_http.Stacked.Exceeds.{over, late_parts, stacked-exceeds}
use sui_http.Stacked.Answers.{stacked-answers}
use sui_http.Tests.Headers.{http}
use sui_http.Tests.Countdown.{countdown, countdown-pending}
use sui_http.Tests.Grpc.{Map, timer, poll_timer_at, seconds, timed}
use sui_http.Tests.Bodies.{Frame, data_ref, trailers_ref, Script, next_frame, script, Kept, on_body}

abbrev kept : ResponseHandler Kept (ℕ × Map) ℕ ℕ ℕ ℕ
kept = record { on_response = λ h parts. h; on_service_error = λ h e. h; on_body = on_body }

abbrev make : MakeCallbackHandler ℕ Map Kept Kept
make = record { make_handler = λ m head. ([], []) }

-- The inner service is ready after as many polls as its state says.
abbrev inner_call : ℕ → Map × RequestBody ℕ Kept → ℕ × ℕ
inner_call n req = (n, n)

abbrev reply : Response Map Script
reply = record { status = 204; headers = http.new; body = script }

abbrev answer : Result (Response Map Script) ℕ
answer = ok reply

abbrev both : ℕ → Callback (GrpcTimeout ℕ) ℕ
both polls = record {
  inner = record { inner = polls; server_timeout = some (from_secs 2) };
  make_callback_handler = 0;
}

abbrev headers : Map → Map
headers head = head

abbrev AppliesTo : ℕ → Duration → Type 0
AppliesTo polls =
    Applies http (head_of headers) inner_call timer (both polls).inner
      (inner_request make (both polls) http.new 7)

two_seconds : (polls : ℕ) (y : Duration) → AppliesTo polls y → y ≡ from_secs 2
two_seconds polls y (inl e) = sym (some-injective (from_secs 2) y e)
two_seconds polls y (inr (v, e, t)) = absurd (none-ne-some v e)

least : IsShortest (AppliesTo 4) (from_secs 2)
least = (inl refl, λ y a. omega (arith, two_seconds 4 y a))

abbrev size_of : Script → ℕ
size_of b = 5

abbrev body_of : MaybeEmptyBody Script → Poll (Option (Result Frame ℕ)) × MaybeEmptyBody Script
body_of = poll_body next_frame (λ b. false) size_of 0

abbrev poll_response :
    ResponseBody (MaybeEmptyBody Script) Kept
    → Poll (Option (Result Frame ℕ)) × ResponseBody (MaybeEmptyBody Script) Kept
poll_response = Response.poll_frame kept data_ref trailers_ref body_of

abbrev at : ℕ → ℕ → Poll (Future.Output kept (timeout_poll http (countdown answer) poll_timer_at))
at polls j =
    poll_at (Future.poll kept (timeout_poll http (countdown answer) poll_timer_at))
      (stacked http make headers inner_call timer (both polls) http.new 7) j

stacked-exceeds_example :
    ((late_parts http Script).0 ≡ 200)
    × (http.get (late_parts http Script).1 grpc_status_header ≡ some (codes "4"))
    × (j : ℕ) × (j ≤ 3)
    × (b : ResponseBody (MaybeEmptyBody Script) Kept) × (at 4 j
        ≡ ready (done (ok (late_parts http Script, b))))
    × (results poll_response 5 b ≡ over Frame ℕ 5)
    × ((after poll_response 5 b).handler ≡ end_of_stream none ∷ [])
stacked-exceeds_example =
    stacked-exceeds http make kept headers inner_call timer (countdown answer) poll_timer_at
      data_ref trailers_ref next_frame (λ b. false) size_of 0 0 seconds (from_millis 1) timed
      (both 4) http.new 7 (from_secs 2) 3 4 least (countdown-pending answer 4) (omega arith)

stacked-answers_example :
    (j : ℕ) × (j ≤ 2)
    × (b : ResponseBody (MaybeEmptyBody Script) Kept) × (at 2 j
        ≡ ready (done (ok ((204, http.new), b))))
    × (results poll_response 5 b ≡ results next_frame 5 script)
    × (log : List (Call ℕ ℕ ℕ)) × ((after poll_response 5 b).handler ≡ tell on_body [] log)
    × (chunks log ≡ flat (data_of data_ref) (results next_frame 5 script))
    × (errors log ≡ flat error_of (results next_frame 5 script))
    × (ends log ≡ take 1 (flat (end_of data_ref trailers_ref) (results next_frame 5 script)))
stacked-answers_example =
    stacked-answers http make kept headers inner_call timer (countdown answer) poll_timer_at
      data_ref trailers_ref next_frame (λ b. false) size_of 0 0 seconds (from_millis 1) timed
      (both 2) http.new 7 reply 2 5 (countdown-pending answer 2) refl
      (λ y a j l. omega (arith, two_seconds 2 y a))
