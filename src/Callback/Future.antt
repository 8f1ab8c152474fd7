-- ===== src/Callback/Future.antt =====
-- src/middleware/callback/future.rs. `Response<B>` is a head and a body. A poll may panic: the
-- handler is taken out of its `Option` and unwrapped. An error stands beside the state in which the
-- handler is dropped, so that what it was told shows.
pub mod Once
use sui_http.Prelude.{
  Bool, false, Option, none, some, Result, ok, err, Run, done, panic, Poll, ready, pending,
}
use sui_http.Callback.Handler.{ResponseHandler}
use sui_http.Callback.Body.{ResponseBody}

pub record ResponseFuture (F H : Type 0) : Type 0 where
  pub inner : F
  pub handler : Option H

module _ {H Parts D T E S B : Type 0} (on : ResponseHandler H Parts D T E S) where
  -- The result that is handed on, and what the handler is told.
  unfoldable pub finish : H → Result (Parts × B) S → Result (Parts × ResponseBody B H) (S × H)
  finish handler (ok (head, body)) =
      ok (head, record { inner = body; handler = on.on_response handler head; ended = false })
  finish handler (err error) = err (error, on.on_service_error handler error)

  module _ {F : Type 0} (poll_inner : F → Poll (Result (Parts × B) S) × F) where
    abbrev pub Output : Type 0
    Output = Run (Result (Parts × ResponseBody B H) (S × H))

    unfoldable pub poll : ResponseFuture F H → Poll Output × ResponseFuture F H
    poll f =
        let (result, inner') = poll_inner f.inner in
        elim result [
          | pending ↦ (pending, record f { inner = inner' })
          | ready r ↦ elim f.handler [
            | none ↦ (ready panic, record f { inner = inner' })
            | some h ↦ (ready (done (finish h r)), record { inner = inner'; handler = none })
          ]
        ]
