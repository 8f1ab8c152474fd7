-- ===== src/Callback/Handler.antt =====
-- src/middleware/callback/mod.rs: the traits, as records of functions from a handler's state to
-- its next state. A default method leaves the state alone.
use sui_http.Prelude.{Option}

-- The methods that both traits share. `D` is a chunk of data, `T` are trailers, `E` is an error.
pub record RequestHandler (H D T E : Type 0) : Type 0 where
  pub on_body_chunk : H → D → H
  pub on_end_of_stream : H → Option T → H
  pub on_body_error : H → E → H

pub record ResponseHandler (H Parts D T E S : Type 0) : Type 0 where
  pub on_response : H → Parts → H
  pub on_service_error : H → S → H
  pub on_body : RequestHandler H D T E

-- `impl RequestHandler for ()`.
unfoldable pub unit_handler : {D T E : Type 0} → RequestHandler (Unit {0}) D T E
unit_handler = record {
  on_body_chunk = λ h _. h;
  on_end_of_stream = λ h _. h;
  on_body_error = λ h _. h;
}

-- The trait `MakeCallbackHandler` of a type `M`, by the request's head.
pub record MakeCallbackHandler (M Head Hreq Hresp : Type 0) : Type 0 where
  pub make_handler : M → Head → Hreq × Hresp
