-- ===== src/GrpcTimeout/Body.antt =====
-- src/middleware/grpc_timeout.rs, `MaybeEmptyBody`. The wrapped body is a parameter: its
-- `poll_frame` returns the poll's result and the body afterwards.
use sui_http.Prelude.{Bool, true, Option, none, some, Poll, ready}

pub record MaybeEmptyBody (B : Type 0) : Type 0 where
  pub inner : Option B

abbrev pub full : {B : Type 0} → B → MaybeEmptyBody B
full b = record { inner = some b }

abbrev pub empty : {B : Type 0} → MaybeEmptyBody B
empty = record { inner = none }

module _ {B Frame SizeHint : Type 0} (inner_poll_frame : B → Poll (Option Frame) × B)
    (inner_is_end_stream : B → Bool) (inner_size_hint : B → SizeHint) (exactly_0 : SizeHint) where
  unfoldable pub poll_frame : MaybeEmptyBody B → Poll (Option Frame) × MaybeEmptyBody B
  poll_frame m = elim m.inner [
    | some b ↦ let (frame, b') = inner_poll_frame b in (frame, full b')
    | none ↦ (ready none, m)
  ]

  unfoldable pub is_end_stream : MaybeEmptyBody B → Bool
  is_end_stream m = elim m.inner [ some b ↦ inner_is_end_stream b | none ↦ true ]

  unfoldable pub size_hint : MaybeEmptyBody B → SizeHint
  size_hint m = elim m.inner [ some b ↦ inner_size_hint b | none ↦ exactly_0 ]
