-- ===== src/Callback/Response.antt =====
-- src/middleware/callback/body.rs, `impl Body for ResponseBody`: the same steps as those of
-- `RequestBody`, told to a `ResponseHandler`.
use sui_http.Prelude.{
  Bool, true, not, Option, none, some, Result, ok, err, Poll, ready, pending, if◌then◌else◌,
}
use sui_http.Callback.Handler.{ResponseHandler}
use sui_http.Callback.Body.{ResponseBody}

module _ {H Parts B Frame D T E S : Type 0} (on : ResponseHandler H Parts D T E S)
    (data_ref : Frame → Option D) (trailers_ref : Frame → Option T) where
  unfoldable pub on_trailers : ResponseBody B H → T → ResponseBody B H
  on_trailers b trailers =
      if not b.ended
      then record b {
        handler = on.on_body.on_end_of_stream b.handler (some trailers);
        ended = true;
      }
      else b

  unfoldable pub on_none : ResponseBody B H → ResponseBody B H
  on_none b =
      if not b.ended
      then record b { handler = on.on_body.on_end_of_stream b.handler none; ended = true }
      else b

  unfoldable pub on_result : ResponseBody B H → Option (Result Frame E) → ResponseBody B H
  unfolding on_trailers on_none
  on_result b (some (ok frame)) = elim (data_ref frame) [
    | some chunk ↦ record b { handler = on.on_body.on_body_chunk b.handler chunk }
    | none ↦ elim (trailers_ref frame) [ some trailers ↦ on_trailers b trailers | none ↦ b ]
  ]
  on_result b (some (err e)) = record b { handler = on.on_body.on_body_error b.handler e }
  on_result b none = on_none b

  module _ (inner_poll_frame : B → Poll (Option (Result Frame E)) × B) where
    unfoldable pub poll_frame : ResponseBody B H → Poll (Option (Result Frame E)) × ResponseBody B H
    unfolding on_result
    poll_frame b =
        let (result, inner') = inner_poll_frame b.inner in
        let b' : ResponseBody B H = record b { inner = inner' } in
        elim result [ pending ↦ (pending, b') | ready r ↦ (ready r, on_result b' r) ]

module _ {B H : Type 0} (inner_is_end_stream : B → Bool) where
  unfoldable pub is_end_stream : ResponseBody B H → Bool
  is_end_stream b = inner_is_end_stream b.inner

module _ {B H SizeHint : Type 0} (inner_size_hint : B → SizeHint) where
  unfoldable pub size_hint : ResponseBody B H → SizeHint
  size_hint b = inner_size_hint b.inner
