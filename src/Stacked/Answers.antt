-- ===== src/Stacked/Answers.antt =====
-- A request that is answered in time, through both middlewares.
use sui_http.Prelude.{
  ℕ, zero, suc, ◌+◌, ◌≤◌, ◌<◌, ◌≡◌, refl, ap, ◌∙◌, Bool, Option, List, ◌∷◌, Result, ok, done, Poll,
  ready, Duration, take, arith,
}
use sui_http.Prelude.Http.{Http, Response}
use sui_http.Prelude.Polls.{poll_at, PendingBefore, results, after}
use sui_http.GrpcTimeout.Body
use sui_http.GrpcTimeout.Body.{MaybeEmptyBody, full}
use sui_http.GrpcTimeout.Service.{GrpcTimeout}
use sui_http.GrpcTimeout.Service.Shortest.{Applies}
use sui_http.GrpcTimeout.Future.{map_full}
use sui_http.GrpcTimeout.Deadline.{IsTimed, call-answers}
use sui_http.Callback.Handler.{ResponseHandler, MakeCallbackHandler}
use sui_http.Callback.Calls.{Call, tell, chunks, errors, ends}
use sui_http.Callback.Body.{RequestBody, ResponseBody}
use sui_http.Callback.Body.Log.{flat, data_of, error_of, end_of}
use sui_http.Callback.Response
use sui_http.Callback.Future
use sui_http.Callback.Service.{Callback}
use sui_http.Callback.Service.EndToEnd.{call-observes}
use sui_http.Stacked.{into_parts}
use sui_http.Stacked.Calls.{
  head_of, called, timeout_poll, inner_request, response_handler, stacked, Replies-poll, poll_body,
}

module _ {Resp X E SizeHint : Type 0} (inner_poll_frame : Resp → Poll (Option (Result X E)) × Resp)
    (inner_is_end_stream : Resp → Bool) (inner_size_hint : Resp → SizeHint)
    (exactly_0 : SizeHint) where
  -- A body that is there is polled through its wrapper.
  results-full :
      (n : ℕ) (b : Resp)
      → results
          (Body.poll_frame inner_poll_frame inner_is_end_stream inner_size_hint exactly_0)
          n
          (full b)
        ≡ results inner_poll_frame n b
  unfolding Body.poll_frame
  results-full zero b = refl
  results-full (suc n) b =
      ap (λ os. (inner_poll_frame b).0 ∷ os) (results-full n (inner_poll_frame b).1)

module _ (http : Http) {S E B Hreq Hresp Head M F Sleep Resp X D T SizeHint : Type 0}
    (make : MakeCallbackHandler M Head Hreq Hresp)
    (on : ResponseHandler Hresp (ℕ × http.HeaderMap) D T E E) (headers : Head → http.HeaderMap)
    (inner_call : S → Head × RequestBody B Hreq → F × S) (sleep : Duration → Sleep)
    (poll_inner : F → Poll (Result (Response http.HeaderMap Resp) E) × F)
    (poll_sleep : Sleep → Poll (Unit {0}) × Sleep) (data_ref : X → Option D)
    (trailers_ref : X → Option T) (inner_poll_frame : Resp → Poll (Option (Result X E)) × Resp)
    (inner_is_end_stream : Resp → Bool) (inner_size_hint : Resp → SizeHint)
    (exactly_0 : SizeHint) where
  -- `CallbackLayer` over `GrpcTimeout`, called at `now`. If the inner future is first ready at poll
  -- `k`, with a response, and each earlier poll comes before the end of every timeout that applies,
  -- then the caller has that response's status and headers by then, and at every poll of its body
  -- what the inner body gives; the handler has been told of that head, and then of the inner body's
  -- data in order, of its errors in order, and of its first end alone.
  pub stacked-answers :
      (now : ℕ) (clock : ℕ → ℕ) (granularity : Duration)
      (timed : IsTimed sleep poll_sleep now clock granularity) (c : Callback (GrpcTimeout S) M)
      (head : Head) (body : B) (resp : Response http.HeaderMap Resp) (k n : ℕ)
      → let req = inner_request make c head body in
        let inner = (inner_call c.inner.inner req).0 in
        PendingBefore poll_inner inner k
        → poll_at poll_inner inner k ≡ ready (ok resp)
        → ((y : Duration)
            → Applies http (head_of headers) inner_call sleep c.inner req y
            → (i : ℕ) → i < k
            → clock i < now + y)
        → let parts = (into_parts resp).0 in
          let told = on.on_response (response_handler make c head) parts in
          let poll_response =
            Response.poll_frame on data_ref trailers_ref
              (poll_body inner_poll_frame inner_is_end_stream inner_size_hint exactly_0) in
          let given = results inner_poll_frame n resp.body in
          (j : ℕ) × (j ≤ k)
          × (b : ResponseBody (MaybeEmptyBody Resp) Hresp) × (poll_at
                (Future.poll on (timeout_poll http poll_inner poll_sleep))
                (stacked http make headers inner_call sleep c head body)
                j
              ≡ ready (done (ok (parts, b))))
          × (results poll_response n b ≡ given)
          × (log : List (Call D T E)) × ((after poll_response n b).handler
              ≡ tell on.on_body told log)
          × (chunks log ≡ flat (data_of data_ref) given)
          × (errors log ≡ flat error_of given)
          × (ends log ≡ take 1 (flat (end_of data_ref trailers_ref) given))
  stacked-answers now clock granularity timed c head body resp k n before there early =
      let req = inner_request make c head body in
      let reply =
        call-answers http (head_of headers) inner_call sleep poll_inner poll_sleep now clock
          granularity timed c.inner req (ok resp) k (suc k) (omega arith) before there early in
      let (j, l, waits, at) =
        Replies-poll http headers inner_call sleep poll_inner poll_sleep now clock granularity timed
          c.inner req (suc k) (map_full (ok resp)) reply in
      let (b, at_poll, shown, log, handled, seen, wrong, finished) =
        call-observes make on (called http headers inner_call sleep)
          (timeout_poll http poll_inner poll_sleep) data_ref trailers_ref
          (poll_body inner_poll_frame inner_is_end_stream inner_size_hint exactly_0) c head body j n
          (resp.status, resp.headers) (full resp.body) waits at in
      let same =
        shown
        ∙ results-full inner_poll_frame inner_is_end_stream inner_size_hint exactly_0 n resp.body in
      (
        j,
        omega arith,
        b,
        at_poll,
        same,
        log,
        handled,
        seen ∙ ap (flat (data_of data_ref)) same,
        wrong ∙ ap (flat error_of) same,
        finished ∙ ap (λ os. take 1 (flat (end_of data_ref trailers_ref) os)) same,
      )
