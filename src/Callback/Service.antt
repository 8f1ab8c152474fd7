-- ===== src/Callback/Service.antt =====
-- src/middleware/callback/layer.rs and service.rs. A request is a head and a body; the inner
-- service is a parameter.
pub mod EndToEnd
use sui_http.Prelude.{Bool, false, Option, some, Poll, Result}
use sui_http.Callback.Body.{RequestBody}
use sui_http.Callback.Handler.{MakeCallbackHandler}
use sui_http.Callback.Future.{ResponseFuture}

pub record Callback (S M : Type 0) : Type 0 where
  pub inner : S
  pub make_callback_handler : M

pub record CallbackLayer (M : Type 0) : Type 0 where
  pub make_handler : M

-- `CallbackLayer::new`, and `Callback::layer`.
unfoldable pub new_layer : {M : Type 0} → M → CallbackLayer M
new_layer make_handler = record { make_handler = make_handler }

module _ {S M : Type 0} where
  unfoldable pub new : S → M → Callback S M
  new inner make_callback_handler = record {
    inner = inner;
    make_callback_handler = make_callback_handler;
  }

  -- `impl Layer for CallbackLayer`.
  unfoldable pub layer : CallbackLayer M → S → Callback S M
  layer l inner = record { inner = inner; make_callback_handler = l.make_handler }

  unfoldable pub into_inner : Callback S M → S
  into_inner c = c.inner

module _ {M Head Hreq Hresp : Type 0} (make : MakeCallbackHandler M Head Hreq Hresp)
    {S F B : Type 0} (inner_call : S → Head × RequestBody B Hreq → F × S) where
  unfoldable pub call : Callback S M → Head × B → ResponseFuture F Hresp × Callback S M
  call c (head, body) =
      let (req_handler, resp_handler) = make.make_handler c.make_callback_handler head in
      let wrapped_body : RequestBody B Hreq = record {
        inner = body;
        handler = req_handler;
        ended = false;
      } in
      let (f, inner') = inner_call c.inner (head, wrapped_body) in
      (record { inner = f; handler = some resp_handler }, record c { inner = inner' })

module _ {S E : Type 0} (inner_poll_ready : S → Poll (Result (Unit {0}) E) × S) {M : Type 0} where
  unfoldable pub poll_ready : Callback S M → Poll (Result (Unit {0}) E) × Callback S M
  poll_ready c = let (r, inner') = inner_poll_ready c.inner in (r, record c { inner = inner' })
