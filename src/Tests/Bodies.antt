-- ===== src/Tests/Bodies.antt =====
-- Tests of the fused future and of the callback middleware.
use sui_http.Prelude.{
  ℕ, suc, ◌≡◌, refl, false, Option, none, some, List, [], ◌∷◌, ◌++◌, Result, ok, err, done, Poll,
  ready, pending, take,
}
use sui_http.Prelude.Polls.{poll_at, PendingBefore, results, after}
use sui_http.Callback.Handler.{RequestHandler, ResponseHandler, MakeCallbackHandler}
use sui_http.Callback.Calls.{Call, chunk, end_of_stream, error, tell, chunks, errors, ends}
use sui_http.Callback.Body.{RequestBody, ResponseBody, poll_frame, observe, on_frame, on_end}
use sui_http.Callback.Body.Log.{Observed, poll-Observed, flat, data_of, error_of, end_of}
use sui_http.Callback.Response
use sui_http.Callback.Future
use sui_http.Callback.Future.{ResponseFuture, finish}
use sui_http.Callback.Future.Once.{spent, poll-finish_once}
use sui_http.Callback.Service.{Callback, call}
use sui_http.Callback.Service.EndToEnd.{call-observes}
use sui_http.Tests.Countdown.{countdown, countdown-pending}

-- A body is the list of its polls' results.
pub data Frame : Type 0 where
  data_frame trailers_frame : ℕ → Frame

abbrev pub data_ref : Frame → Option ℕ
data_ref (data_frame d) = some d
data_ref (trailers_frame t) = none

abbrev pub trailers_ref : Frame → Option ℕ
trailers_ref (data_frame d) = none
trailers_ref (trailers_frame t) = some t

abbrev pub Script : Type 0
Script = List (Poll (Option (Result Frame ℕ)))

abbrev pub next_frame : Script → Poll (Option (Result Frame ℕ)) × Script
next_frame [] = (ready none, [])
next_frame (r ∷ rs) = (r, rs)

abbrev pub script : Script
script =
    ready (some (ok (data_frame 4)))
    ∷ pending
    ∷ ready (some (err 6))
    ∷ ready (some (ok (trailers_frame 5)))
    ∷ ready none
    ∷ []

-- A handler that keeps the calls.
abbrev pub Kept : Type 0
Kept = List (Call ℕ ℕ ℕ)

abbrev pub on_body : RequestHandler Kept ℕ ℕ ℕ
on_body = record {
  on_body_chunk = λ h d. h ++ (chunk d ∷ []);
  on_end_of_stream = λ h t. h ++ (end_of_stream t ∷ []);
  on_body_error = λ h e. h ++ (error e ∷ []);
}

abbrev on : ResponseHandler Kept ℕ ℕ ℕ ℕ ℕ
on = record { on_response = λ h parts. h; on_service_error = λ h e. h; on_body = on_body }

abbrev wrapped : RequestBody Script Kept
wrapped = record { inner = script; handler = []; ended = false }

abbrev poll_wrapped :
    RequestBody Script Kept → Poll (Option (Result Frame ℕ)) × RequestBody Script Kept
poll_wrapped = poll_frame on_body data_ref trailers_ref next_frame

poll_frame_test :
    (after poll_wrapped 6 wrapped).handler ≡ chunk 4 ∷ error 6 ∷ end_of_stream (some 5) ∷ []
unfolding poll_frame observe on_frame on_end
poll_frame_test = refl

poll-Observed_example : Observed on_body data_ref trailers_ref next_frame 5 wrapped
poll-Observed_example = poll-Observed on_body data_ref trailers_ref next_frame 5 wrapped

abbrev answer : Result (ℕ × Script) ℕ
answer = ok (200, script)

abbrev waiting : ResponseFuture ℕ Kept
waiting = record { inner = 1; handler = some [] }

poll-finish_once_example :
    PendingBefore (Future.poll on (countdown answer)) waiting 1
    × (poll_at (Future.poll on (countdown answer)) waiting 1 ≡ ready (done (finish on [] answer)))
    × (after (Future.poll on (countdown answer)) 2 waiting ≡ record { inner = 0; handler = none })
    × (poll_at (Future.poll on (countdown answer)) waiting 2
        ≡ spent on (countdown answer) (poll_at (countdown answer) 1 2))
poll-finish_once_example =
    poll-finish_once on (countdown answer) 1 1 [] answer (countdown-pending answer 1) refl

-- The inner service answers after as many polls as the request's head says.
abbrev inner_call : ℕ → ℕ × RequestBody Script Kept → ℕ × ℕ
inner_call n (head, body) = (head, suc n)

abbrev make : MakeCallbackHandler ℕ ℕ Kept Kept
make = record { make_handler = λ m head. ([], []) }

abbrev service : Callback ℕ ℕ
service = record { inner = 0; make_callback_handler = 0 }

abbrev poll_response :
    ResponseBody Script Kept → Poll (Option (Result Frame ℕ)) × ResponseBody Script Kept
poll_response = Response.poll_frame on data_ref trailers_ref next_frame

call-observes_example :
    let f = (call make inner_call service (1, script)).0 in
    (b : ResponseBody Script Kept) × (poll_at (Future.poll on (countdown answer)) f 1
      ≡ ready (done (ok (200, b))))
    × (results poll_response 5 b ≡ results next_frame 5 script)
    × (log : Kept) × ((after poll_response 5 b).handler ≡ tell on_body [] log)
    × (chunks log ≡ flat (data_of data_ref) (results poll_response 5 b))
    × (errors log ≡ flat error_of (results poll_response 5 b))
    × (ends log ≡ take 1 (flat (end_of data_ref trailers_ref) (results poll_response 5 b)))
call-observes_example =
    call-observes make on inner_call (countdown answer) data_ref trailers_ref next_frame service 1
      script 1 5 200 script (countdown-pending answer 1) refl
