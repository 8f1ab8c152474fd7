-- ===== src/GrpcTimeout/Future/Trailers.antt =====
-- The response that stands in for a late one, as a gRPC client reads it.
use sui_http.Prelude.{◌≡◌, refl, ◌∙◌, Bool, true, Option, none, some, Poll, ready, codes}
use sui_http.Prelude.Http.{Http}
use sui_http.GrpcTimeout.Body.{poll_frame, is_end_stream, size_hint}
use sui_http.GrpcTimeout.Future.{
  timeout_response, content_type, grpc_status_header, grpc_message_header,
}

module _ (http : Http) {B Frame SizeHint : Type 0} (inner_poll_frame : B → Poll (Option Frame) × B)
    (inner_is_end_stream : B → Bool) (inner_size_hint : B → SizeHint) (exactly_0 : SizeHint) where
  -- The response that answers for an elapsed timer has status 200, the content type
  -- `application/grpc`, the gRPC status 4 and the message `Timeout%20expired`; its body is over:
  -- it says so, its size is 0, and a poll gives the end.
  pub timeout_response-ends :
      let r = timeout_response http B in
      (r.status ≡ 200)
      × (http.get r.headers content_type ≡ some (codes "application/grpc"))
      × (http.get r.headers grpc_status_header ≡ some (codes "4"))
      × (http.get r.headers grpc_message_header ≡ some (codes "Timeout%20expired"))
      × (poll_frame inner_poll_frame inner_is_end_stream inner_size_hint exactly_0 r.body
          ≡ (ready none, r.body))
      × (is_end_stream inner_poll_frame inner_is_end_stream inner_size_hint exactly_0 r.body ≡ true)
      × (size_hint inner_poll_frame inner_is_end_stream inner_size_hint exactly_0 r.body
          ≡ exactly_0)
  unfolding timeout_response poll_frame is_end_stream size_hint
  timeout_response-ends = (
    refl,
    http.get-insert grpc_message_header content_type _ _
        ∙ http.get-insert grpc_status_header content_type _ _
        ∙ http.get-insert content_type content_type _ _,
    http.get-insert grpc_message_header grpc_status_header _ _
        ∙ http.get-insert grpc_status_header grpc_status_header _ _,
    http.get-insert grpc_message_header grpc_message_header _ _,
    refl,
    refl,
    refl,
  )
