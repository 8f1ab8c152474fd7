-- ===== src/GrpcTimeout/Future.antt =====
-- src/middleware/grpc_timeout.rs, `ResponseFuture::poll`. The inner future and the timer are
-- parameters: a poll returns its result and the future afterwards.
pub mod Race
pub mod Trailers
use sui_http.Prelude.{Option, none, some, Result, ok, err, Poll, ready, pending, Bytes, codes, ℕ}
use Prim.Native.String.{String}
use sui_http.Prelude.Http.{Http, Response, map_body}
use sui_http.GrpcTimeout.Body.{MaybeEmptyBody, full, empty}
use sui_http.GrpcTimeout.Service.{ResponseFuture}

abbrev pub content_type : String
content_type = "content-type"

abbrev pub grpc_status_header : String
grpc_status_header = "grpc-status"

abbrev pub grpc_message_header : String
grpc_message_header = "grpc-message"

abbrev pub grpc_content_type : Bytes
grpc_content_type = codes "application/grpc"

abbrev pub grpc_deadline_exceeded_code : Bytes
grpc_deadline_exceeded_code = codes "4"

abbrev pub grpc_deadline_exceeded_message : Bytes
grpc_deadline_exceeded_message = codes "Timeout%20expired"

-- `result.map(|response| response.map(MaybeEmptyBody::full))`.
abbrev pub map_full :
    {M B E : Type 0} → Result (Response M B) E → Result (Response M (MaybeEmptyBody B)) E
map_full (ok response) = ok (map_body full response)
map_full (err e) = err e

module _ (http : Http) (B : Type 0) where
  -- `Response::new` has status 200 and no headers.
  unfoldable pub timeout_response : Response http.HeaderMap (MaybeEmptyBody B)
  timeout_response = record {
    status = 200;
    headers = http.insert grpc_message_header grpc_deadline_exceeded_message (
        http.insert grpc_status_header grpc_deadline_exceeded_code
          (http.insert content_type grpc_content_type http.new));
    body = empty;
  }

module _ (http : Http) {B E F Sleep : Type 0}
    (poll_inner : F → Poll (Result (Response http.HeaderMap B) E) × F)
    (poll_sleep : Sleep → Poll (Unit {0}) × Sleep) where
  abbrev pub Output : Type 0
  Output = Result (Response http.HeaderMap (MaybeEmptyBody B)) E

  -- The timer is polled only when the inner future is pending.
  unfoldable pub poll_timer : ResponseFuture F Sleep → Poll Output × ResponseFuture F Sleep
  poll_timer f = elim f.sleep [
    | none ↦ (pending, f)
    | some sleep ↦
        let (elapsed, sleep') = poll_sleep sleep in
        let f' : ResponseFuture F Sleep = record f { sleep = some sleep' } in
        elim elapsed [
          | ready _ ↦ (ready (ok (timeout_response http B)), f')
          | pending ↦ (pending, f')
        ]
  ]

  unfoldable pub poll : ResponseFuture F Sleep → Poll Output × ResponseFuture F Sleep
  poll f =
      let (result, inner') = poll_inner f.inner in
      let f' : ResponseFuture F Sleep = record f { inner = inner' } in
      elim result [ ready r ↦ (ready (map_full r), f') | pending ↦ poll_timer f' ]
