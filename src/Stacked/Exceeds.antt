-- ===== src/Stacked/Exceeds.antt =====
-- A late request through both middlewares: what the caller gets, and what the handler is told.
use sui_http.Prelude.{
  ℕ, zero, suc, ◌+◌, ◌≤◌, ◌≡◌, refl, ap, ◌∙◌, Bool, Option, none, some, List, [], ◌∷◌, Result, ok,
  done, Poll, ready, Duration, take, codes, arith,
}
use sui_http.Prelude.Http.{Http, Response}
use sui_http.Prelude.Polls.{poll_at, PendingBefore, results, after}
use sui_http.GrpcTimeout.Body.{MaybeEmptyBody}
use sui_http.GrpcTimeout.Service.{GrpcTimeout}
use sui_http.GrpcTimeout.Service.Shortest.{IsShortest, Applies}
use sui_http.GrpcTimeout.Future.{timeout_response, grpc_status_header}
use sui_http.GrpcTimeout.Future.Trailers.{timeout_response-ends}
use sui_http.GrpcTimeout.Deadline.{IsTimed, call-exceeds}
use sui_http.Callback.Handler.{ResponseHandler, MakeCallbackHandler}
use sui_http.Callback.Calls.{Call, chunk, end_of_stream, error, tell, chunks, errors, ends}
use sui_http.Callback.Body.{RequestBody, ResponseBody}
use sui_http.Callback.Body.Log.{flat, data_of, error_of, end_of}
use sui_http.Callback.Response
use sui_http.Callback.Future
use sui_http.Callback.Service.{Callback}
use sui_http.Callback.Service.EndToEnd.{call-observes}
use sui_http.Stacked.Calls.{
  head_of, called, timeout_poll, inner_request, response_handler, stacked, Replies-poll, poll_body,
}

-- A handler that is told of one end and nothing else.
only_end :
    {D T E : Type 0} (log : List (Call D T E)) (t : Option T)
    → chunks log ≡ []
    → errors log ≡ []
    → ends log ≡ t ∷ []
    → log ≡ end_of_stream t ∷ []
only_end [] t c e d = absurd (ground arith)
only_end (chunk x ∷ log) t c e d = absurd (ground arith)
only_end (error x ∷ log) t c e d = absurd (ground arith)
only_end (end_of_stream u ∷ []) t c e d = ground arith
only_end (end_of_stream u ∷ (chunk x ∷ log)) t c e d = absurd (ground arith)
only_end (end_of_stream u ∷ (error x ∷ log)) t c e d = absurd (ground arith)
only_end (end_of_stream u ∷ (end_of_stream v ∷ log)) t c e d = absurd (ground arith)

-- The results of a body that is over.
abbrev pub over : (X E : Type 0) → ℕ → List (Poll (Option (Result X E)))
over X E zero = []
over X E (suc n) = ready none ∷ over X E n

module _ {X D T : Type 0} (E : Type 0) (data_ref : X → Option D) (trailers_ref : X → Option T) where
  no_data : (n : ℕ) → flat (data_of data_ref) (over X E n) ≡ []
  no_data zero = refl
  no_data (suc n) = no_data n

  no_error : (n : ℕ) → flat error_of (over X E n) ≡ []
  no_error zero = refl
  no_error (suc n) = no_error n

  module _ {B : Type 0} (p : B → Poll (Option (Result X E)) × B) (b : B)
      (ends_here : p b ≡ (ready none, b)) where
    results-over : (n : ℕ) → results p n b ≡ over X E n
    results-over zero = refl
    results-over (suc n) =
        ap (λ q. q.0 ∷ results p n q.1) ends_here ∙ ap (λ os. ready none ∷ os) (results-over n)

abbrev pub late_parts : (http : Http) → Type 0 → ℕ × http.HeaderMap
late_parts http Resp = ((timeout_response http Resp).status, (timeout_response http Resp).headers)

module _ (http : Http) {S E B Hreq Hresp Head M F Sleep Resp X D T SizeHint : Type 0}
    (make : MakeCallbackHandler M Head Hreq Hresp)
    (on : ResponseHandler Hresp (ℕ × http.HeaderMap) D T E E) (headers : Head → http.HeaderMap)
    (inner_call : S → Head × RequestBody B Hreq → F × S) (sleep : Duration → Sleep)
    (poll_inner : F → Poll (Result (Response http.HeaderMap Resp) E) × F)
    (poll_sleep : Sleep → Poll (Unit {0}) × Sleep) (data_ref : X → Option D)
    (trailers_ref : X → Option T) (inner_poll_frame : Resp → Poll (Option (Result X E)) × Resp)
    (inner_is_end_stream : Resp → Bool) (inner_size_hint : Resp → SizeHint)
    (exactly_0 : SizeHint) where
  -- `CallbackLayer` over `GrpcTimeout`, called at `now`. Where timeouts apply to the request, the
  -- least being `x`: if the inner future is pending at every poll up to one, `k`, that comes at
  -- `now + x` and the timer's granularity, or later, then the caller has a response by that poll,
  -- with status 200 and the gRPC status 4. Its body gives the end at every poll, and after any
  -- number of polls but none the handler has been told of that head, and then once of an end without
  -- trailers, and of nothing else.
  pub stacked-exceeds :
      (now : ℕ) (clock : ℕ → ℕ) (granularity : Duration)
      (timed : IsTimed sleep poll_sleep now clock granularity) (c : Callback (GrpcTimeout S) M)
      (head : Head) (body : B) (x : Duration) (k m : ℕ)
      → IsShortest
          (Applies http (head_of headers) inner_call sleep c.inner (inner_request make c head body))
          x
      → PendingBefore poll_inner
          (inner_call c.inner.inner (inner_request make c head body)).0
          (suc k)
      → now + x + granularity ≤ clock k
      → let told = on.on_response (response_handler make c head) (late_parts http Resp) in
        let poll_response =
          Response.poll_frame on data_ref trailers_ref
            (poll_body inner_poll_frame inner_is_end_stream inner_size_hint exactly_0) in
        ((late_parts http Resp).0 ≡ 200)
        × (http.get (late_parts http Resp).1 grpc_status_header ≡ some (codes "4"))
        × (j : ℕ) × (j ≤ k)
        × (b : ResponseBody (MaybeEmptyBody Resp) Hresp) × (poll_at
              (Future.poll on (timeout_poll http poll_inner poll_sleep))
              (stacked http make headers inner_call sleep c head body)
              j
            ≡ ready (done (ok ((late_parts http Resp), b))))
        × (results poll_response (suc m) b ≡ over X E (suc m))
        × ((after poll_response (suc m) b).handler ≡ on.on_body.on_end_of_stream told none)
  stacked-exceeds now clock granularity timed c head body x k m least before late =
      let req = inner_request make c head body in
      let reply =
        call-exceeds http (head_of headers) inner_call sleep poll_inner poll_sleep now clock
          granularity timed c.inner req x k (suc k) least (omega arith) before late in
      let (j, l, waits, there) =
        Replies-poll http headers inner_call sleep poll_inner poll_sleep now clock granularity timed
          c.inner req (suc k) (ok (timeout_response http Resp)) reply in
      let ends =
        timeout_response-ends http inner_poll_frame inner_is_end_stream inner_size_hint exactly_0 in
      let (b, at_poll, shown, log, handled, seen, wrong, finished) =
        call-observes make on (called http headers inner_call sleep)
          (timeout_poll http poll_inner poll_sleep) data_ref trailers_ref
          (poll_body inner_poll_frame inner_is_end_stream inner_size_hint exactly_0) c head body j
          (suc m) (late_parts http Resp) (timeout_response http Resp).body waits there in
      let none_left =
        shown
        ∙ results-over E data_ref trailers_ref
            (poll_body inner_poll_frame inner_is_end_stream inner_size_hint exactly_0) _ ends.4
            (suc m) in
      let told_of =
        only_end log none
          (seen ∙ ap (flat (data_of data_ref)) none_left ∙ no_data E data_ref trailers_ref (suc m))
          (wrong ∙ ap (flat error_of) none_left ∙ no_error E data_ref trailers_ref (suc m))
          (finished ∙ ap (λ os. take 1 (flat (end_of data_ref trailers_ref) os)) none_left) in
      (
        ends.0,
        ends.2,
        j,
        omega arith,
        b,
        at_poll,
        none_left,
        handled ∙ ap (tell on.on_body _) told_of,
      )
