-- ===== src/Stacked.antt =====
-- src/middleware/callback/ over src/middleware/grpc_timeout.rs, as `CallbackLayer` wraps a service
-- that `GrpcTimeout` wraps. The response of the one, a status, headers and a body, is for the other
-- a head and a body.
pub mod Calls
pub mod Exceeds
pub mod Answers
use sui_http.Prelude.{ℕ, Result, ok, err, Poll, ready, pending}
use sui_http.Prelude.Http.{Response}

-- `Response::into_parts`.
abbrev pub into_parts : {M B : Type 0} → Response M B → (ℕ × M) × B
into_parts r = ((r.status, r.headers), r.body)

abbrev pub result_parts : {M B E : Type 0} → Result (Response M B) E → Result ((ℕ × M) × B) E
result_parts (ok r) = ok (into_parts r)
result_parts (err e) = err e

abbrev pub poll_parts :
    {M B E : Type 0} → Poll (Result (Response M B) E) → Poll (Result ((ℕ × M) × B) E)
poll_parts (ready r) = ready (result_parts r)
poll_parts pending = pending

-- The future of the inner middleware, as the outer one polls it.
abbrev pub in_parts :
    {M B E F : Type 0}
    → (F → Poll (Result (Response M B) E) × F)
    → F
    → Poll (Result ((ℕ × M) × B) E) × F
in_parts poll f = let (result, f') = poll f in (poll_parts result, f')
