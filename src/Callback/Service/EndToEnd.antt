-- ===== src/Callback/Service/EndToEnd.antt =====
-- One exchange through the middleware, from `call` to the last poll of the response body.
use sui_http.Prelude.{ℕ, ◌≡◌, false, Option, List, Result, ok, done, Poll, ready, take}
use sui_http.Prelude.Polls.{poll_at, PendingBefore, results, after}
use sui_http.Callback.Handler.{ResponseHandler, MakeCallbackHandler}
use sui_http.Callback.Calls.{Call, tell, chunks, errors, ends}
use sui_http.Callback.Body.{RequestBody, ResponseBody, poll_frame, observe, on_frame, on_end}
use sui_http.Callback.Response
use sui_http.Callback.Body.Log.{poll-Observed, poll_frame-forwards, flat, data_of, error_of, end_of}
use sui_http.Callback.Future.{ResponseFuture, finish}
use sui_http.Callback.Future
use sui_http.Callback.Future.Once.{poll-finish_once}
use sui_http.Callback.Service.{Callback, call}

module _ {M Head Hreq H Parts D T E S B Bresp F Sv Frame : Type 0}
    (make : MakeCallbackHandler M Head Hreq H) (on : ResponseHandler H Parts D T E S)
    (inner_call : Sv → Head × RequestBody B Hreq → F × Sv)
    (poll_inner : F → Poll (Result (Parts × Bresp) S) × F) (data_ref : Frame → Option D)
    (trailers_ref : Frame → Option T)
    (inner_poll_frame : Bresp → Poll (Option (Result Frame E)) × Bresp) where
  -- The request as the inner service sees it.
  abbrev wrapped : Callback Sv M → Head × B → Head × RequestBody B Hreq
  wrapped c (head, body) = (
    head,
    record {
      inner = body;
      handler = (make.make_handler c.make_callback_handler head).0;
      ended = false;
    },
  )

  abbrev pub inner_future : Callback Sv M → Head × B → F
  inner_future c req = (inner_call c.inner (wrapped c req)).0

  -- The inner service receives the request with its body wrapped. If its future first resolves, at
  -- poll `k`, to a response, then the caller gets that response at poll `k`, its body wrapped; the
  -- handler made for the request has been told of the response's head, and however often the body
  -- is polled, the caller sees the inner body's results, while the handler is told, after the head,
  -- of the data frames in order, of the errors in order, and of the first end alone.
  pub call-observes :
      (c : Callback Sv M) (head : Head) (body : B) (k n : ℕ) (parts : Parts) (resp : Bresp)
      → PendingBefore poll_inner (inner_future c (head, body)) k
      → poll_at poll_inner (inner_future c (head, body)) k ≡ ready (ok (parts, resp))
      → let f = (call make inner_call c (head, body)).0 in
        let h = (make.make_handler c.make_callback_handler head).1 in
        let poll = Response.poll_frame on data_ref trailers_ref inner_poll_frame in
        (b : ResponseBody Bresp H) × (poll_at (Future.poll on poll_inner) f k
          ≡ ready (done (ok (parts, b))))
        × (results poll n b ≡ results inner_poll_frame n resp)
        × (log : List (Call D T E)) × ((after poll n b).handler
            ≡ tell on.on_body (on.on_response h parts) log)
        × (chunks log ≡ flat (data_of data_ref) (results poll n b))
        × (errors log ≡ flat error_of (results poll n b))
        × (ends log ≡ take 1 (flat (end_of data_ref trailers_ref) (results poll n b)))
  unfolding call finish Response.poll_frame Response.on_result poll_frame observe on_frame on_end
  call-observes c head body k n parts resp before h =
      let fut = inner_future c (head, body) in
      let handler = (make.make_handler c.make_callback_handler head).1 in
      let b : ResponseBody Bresp H = record {
        inner = resp;
        handler = on.on_response handler parts;
        ended = false;
      } in
      let o = poll-Observed on.on_body data_ref trailers_ref inner_poll_frame n b in
      (
        b,
        (poll-finish_once on poll_inner k fut handler (ok (parts, resp)) before h).1,
        (poll_frame-forwards on.on_body data_ref trailers_ref inner_poll_frame n b).0,
        o.log,
        o.handler,
        o.seen,
        o.wrong,
        o.finished,
      )
