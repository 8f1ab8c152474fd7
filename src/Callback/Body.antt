-- ===== src/Callback/Body.antt =====
-- src/middleware/callback/body.rs. `RequestBody` and `ResponseBody` are the same code over their
-- handlers. The inner body and `http_body::Frame` are parameters: `data_ref` and `trailers_ref`
-- give the chunk or the trailers that a frame holds.
pub mod Log
use sui_http.Prelude.{
  Bool, true, false, not, Option, none, some, Result, ok, err, Poll, ready, pending, if◌then◌else◌,
}
use sui_http.Callback.Handler.{RequestHandler}

pub record RequestBody (B H : Type 0) : Type 0 where
  pub inner : B
  pub handler : H
  pub ended : Bool

abbrev pub ResponseBody : Type 0 → Type 0 → Type 0
ResponseBody = RequestBody

module _ {H B Frame D T E : Type 0} (on : RequestHandler H D T E) (data_ref : Frame → Option D)
    (trailers_ref : Frame → Option T) where
  unfoldable pub on_end : RequestBody B H → Option T → RequestBody B H
  on_end b trailers =
      if not b.ended
      then record b { handler = on.on_end_of_stream b.handler trailers; ended = true }
      else b

  unfoldable pub on_frame : RequestBody B H → Frame → RequestBody B H
  on_frame b frame = elim (data_ref frame) [
    | some chunk ↦ record b { handler = on.on_body_chunk b.handler chunk }
    | none ↦ elim (trailers_ref frame) [ some trailers ↦ on_end b (some trailers) | none ↦ b ]
  ]

  -- What `poll_frame` does with a result before it hands it on.
  unfoldable pub observe : RequestBody B H → Option (Result Frame E) → RequestBody B H
  observe b (some (ok frame)) = on_frame b frame
  observe b (some (err e)) = record b { handler = on.on_body_error b.handler e }
  observe b none = on_end b none

  module _ (inner_poll_frame : B → Poll (Option (Result Frame E)) × B) where
    unfoldable pub poll_frame : RequestBody B H → Poll (Option (Result Frame E)) × RequestBody B H
    poll_frame b =
        let (result, inner') = inner_poll_frame b.inner in
        let b' : RequestBody B H = record b { inner = inner' } in
        elim result [ pending ↦ (pending, b') | ready r ↦ (ready r, observe b' r) ]

module _ {H B : Type 0} (inner_is_end_stream : B → Bool) where
  unfoldable pub is_end_stream : RequestBody B H → Bool
  is_end_stream b = inner_is_end_stream b.inner

module _ {H B SizeHint : Type 0} (inner_size_hint : B → SizeHint) where
  unfoldable pub size_hint : RequestBody B H → SizeHint
  size_hint b = inner_size_hint b.inner
