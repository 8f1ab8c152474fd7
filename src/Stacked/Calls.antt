-- ===== src/Stacked/Calls.antt =====
-- The two middlewares around an inner service: the call, the future and the body that come of them.
use mathlib.Core.Option
use sui_http.Prelude.{
  Bool, Option, ℕ, zero, suc, ◌<◌, ◌≡◌, refl, sym, ap, ◌∙◌, subst, false, Result, done, panic, Run,
  Poll, ready, Duration,
}
use sui_http.Prelude.Http.{Http, Response}
use sui_http.Prelude.Polls.{poll_at, poll_until-first, PendingBefore}
use sui_http.GrpcTimeout.Body
use sui_http.GrpcTimeout.Body.{MaybeEmptyBody}
use sui_http.GrpcTimeout.Service.{GrpcTimeout, ResponseFuture, call}
use sui_http.GrpcTimeout.Service.Shortest.{call-IsShortest}
use sui_http.GrpcTimeout.Future.{poll}
use sui_http.GrpcTimeout.Deadline.{IsTimed, Replies}
use sui_http.Callback.Handler.{MakeCallbackHandler}
use sui_http.Callback.Body.{RequestBody}
use sui_http.Callback.Future
use sui_http.Callback.Service
use sui_http.Callback.Service.{Callback}
use sui_http.Stacked.{poll_parts, in_parts, result_parts}

module _ {M B E F : Type 0} (p : F → Poll (Result (Response M B) E) × F) where
  pub poll_at-in_parts : (f : F) (k : ℕ) → poll_at (in_parts p) f k ≡ poll_parts (poll_at p f k)
  poll_at-in_parts f zero = refl
  poll_at-in_parts f (suc k) = poll_at-in_parts (p f).1 k

  pub PendingBefore-in_parts :
      (f : F) (k : ℕ) → PendingBefore p f k → PendingBefore (in_parts p) f k
  PendingBefore-in_parts f k h j l = poll_at-in_parts f j ∙ ap poll_parts (h j l)

abbrev value : {A : Type 0} → Run A → A → A
value (done a) a' = a
value panic a' = a'

abbrev pub head_of : {Head Q M : Type 0} → (Head → M) → Head × Q → M
head_of headers r = headers r.0

-- The timeout's `call`, which does not panic, as an inner service; its headers are the head's.
module _ (http : Http) {S B Hreq Head F Sleep : Type 0} (headers : Head → http.HeaderMap)
    (inner_call : S → Head × RequestBody B Hreq → F × S) (sleep : Duration → Sleep) where
  abbrev pub called :
      GrpcTimeout S → Head × RequestBody B Hreq → ResponseFuture F Sleep × GrpcTimeout S
  called g req =
      let d = (call-IsShortest http (head_of headers) inner_call sleep g req).0 in
      (
        record { inner = (inner_call g.inner req).0; sleep = Option.map sleep d },
        record g { inner = (inner_call g.inner req).1 },
      )

  called_done :
      (g : GrpcTimeout S) (req : Head × RequestBody B Hreq)
      → call http (head_of headers) inner_call sleep g req ≡ done (called g req)
  called_done g req = (call-IsShortest http (head_of headers) inner_call sleep g req).1

  pub same_future :
      (g : GrpcTimeout S) (req : Head × RequestBody B Hreq) (f : ResponseFuture F Sleep)
      (g' : GrpcTimeout S)
      → call http (head_of headers) inner_call sleep g req ≡ done (f, g')
      → f ≡ (called g req).0
  same_future g req f g' e = ap (λ r. (value r (called g req)).0) (sym e ∙ called_done g req)

module _ (http : Http) {E F Sleep Resp : Type 0}
    (poll_inner : F → Poll (Result (Response http.HeaderMap Resp) E) × F)
    (poll_sleep : Sleep → Poll (Unit {0}) × Sleep) where
  abbrev pub timeout_poll :
      ResponseFuture F Sleep
      → Poll (Result ((ℕ × http.HeaderMap) × MaybeEmptyBody Resp) E) × ResponseFuture F Sleep
  timeout_poll = in_parts (poll http poll_inner poll_sleep)

module _ (http : Http) {S E B Hreq Head F Sleep Resp : Type 0} (headers : Head → http.HeaderMap)
    (inner_call : S → Head × RequestBody B Hreq → F × S) (sleep : Duration → Sleep)
    (poll_inner : F → Poll (Result (Response http.HeaderMap Resp) E) × F)
    (poll_sleep : Sleep → Poll (Unit {0}) × Sleep) (now : ℕ) (clock : ℕ → ℕ)
    (granularity : Duration) (timed : IsTimed sleep poll_sleep now clock granularity) where
  -- The poll of the inner middleware that gives its answer.
  pub Replies-poll :
      (g : GrpcTimeout S) (req : Head × RequestBody B Hreq) (n : ℕ)
      (answer : Result (Response http.HeaderMap (MaybeEmptyBody Resp)) E)
      → Replies http
          (head_of headers)
          inner_call
          sleep
          poll_inner
          poll_sleep
          now
          clock
          granularity
          timed
          g
          req
          n
          answer
      → let f = (called http headers inner_call sleep g req).0 in
        (j : ℕ) × (j < n)
        × PendingBefore (timeout_poll http poll_inner poll_sleep) f j
        × (poll_at (timeout_poll http poll_inner poll_sleep) f j ≡ ready (result_parts answer))
  Replies-poll g req n answer (f, g', done_with, until) =
      let p = timeout_poll http poll_inner poll_sleep in
      let inner = poll http poll_inner poll_sleep in
      let (j, l, waits, there) = poll_until-first inner n f until in
      let same = same_future http headers inner_call sleep g req f g' done_with in
      (
        j,
        l,
        subst (λ z. PendingBefore p z j) same (PendingBefore-in_parts inner f j waits),
        ap (λ z. poll_at p z j) (sym same) ∙ poll_at-in_parts inner f j ∙ ap poll_parts there,
      )

module _ {Resp X E SizeHint : Type 0} (inner_poll_frame : Resp → Poll (Option (Result X E)) × Resp)
    (inner_is_end_stream : Resp → Bool) (inner_size_hint : Resp → SizeHint)
    (exactly_0 : SizeHint) where
  abbrev pub poll_body : MaybeEmptyBody Resp → Poll (Option (Result X E)) × MaybeEmptyBody Resp
  poll_body = Body.poll_frame inner_poll_frame inner_is_end_stream inner_size_hint exactly_0

-- The request as the inner service sees it: `GrpcTimeout` passes it on.
abbrev pub inner_request :
    {M Head Hreq Hresp S B : Type 0}
    → MakeCallbackHandler M Head Hreq Hresp
    → Callback S M
    → Head
    → B
    → Head × RequestBody B Hreq
inner_request make c head body = (
  head,
  record {
    inner = body;
    handler = (make.make_handler c.make_callback_handler head).0;
    ended = false;
  },
)

-- The handler made for the response.
abbrev pub response_handler :
    {M Head Hreq Hresp S : Type 0}
    → MakeCallbackHandler M Head Hreq Hresp
    → Callback S M
    → Head
    → Hresp
response_handler make c head = (make.make_handler c.make_callback_handler head).1

module _ (http : Http) {S B Hreq Hresp Head M F Sleep : Type 0}
    (make : MakeCallbackHandler M Head Hreq Hresp) (headers : Head → http.HeaderMap)
    (inner_call : S → Head × RequestBody B Hreq → F × S) (sleep : Duration → Sleep) where
  abbrev pub stacked :
      Callback (GrpcTimeout S) M → Head → B → Future.ResponseFuture (ResponseFuture F Sleep) Hresp
  stacked c head body = (Service.call make (called http headers inner_call sleep) c (head, body)).0
