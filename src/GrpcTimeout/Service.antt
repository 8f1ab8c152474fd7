-- ===== src/GrpcTimeout/Service.antt =====
-- src/middleware/grpc_timeout.rs, `GrpcTimeout` and its `Service::call`. The inner service, the
-- request's headers and `tokio::time::sleep` are parameters.
pub mod Shortest
use sui_http.Prelude.{
  Option, none, some, Poll, Result, ok, err, Run, done, panic, Duration, leb, if◌then◌else◌,
}
use sui_http.Prelude.Http.{Http}
use sui_http.GrpcTimeout.Parse.{Parsed, try_parse_grpc_timeout}
use mathlib.Core.Option

pub record GrpcTimeout (S : Type 0) : Type 0 where
  pub inner : S
  pub server_timeout : Option Duration

pub record ResponseFuture (F Sleep : Type 0) : Type 0 where
  pub inner : F
  pub sleep : Option Sleep

unfoldable pub new : {S : Type 0} → S → Option Duration → GrpcTimeout S
new inner server_timeout = record { inner = inner; server_timeout = server_timeout }

module _ {S E : Type 0} (inner_poll_ready : S → Poll (Result (Unit {0}) E) × S) where
  unfoldable pub poll_ready : GrpcTimeout S → Poll (Result (Unit {0}) E) × GrpcTimeout S
  poll_ready g = let (r, inner') = inner_poll_ready g.inner in (r, record g { inner = inner' })

-- `unwrap_or_else` with a closure that logs the error and returns `None`.
abbrev pub or_none : Parsed → Option Duration
or_none (ok d) = d
or_none (err e) = none

-- `std::cmp::min`.
abbrev pub min_duration : Duration → Duration → Duration
min_duration a b = if leb a b then a else b

unfoldable pub timeout_duration : Option Duration → Option Duration → Option Duration
timeout_duration none none = none
timeout_duration (some dur) none = some dur
timeout_duration none (some dur) = some dur
timeout_duration (some header) (some server) = some (min_duration header server)

module _ (http : Http) {S F Req Sleep : Type 0} (headers : Req → http.HeaderMap)
    (inner_call : S → Req → F × S) (sleep : Duration → Sleep) where
  unfoldable pub respond : GrpcTimeout S → Req → Parsed → ResponseFuture F Sleep × GrpcTimeout S
  respond g req parsed =
      let client_timeout = or_none parsed in
      let (f, inner') = inner_call g.inner req in
      (
        record {
          inner = f;
          sleep = Option.map sleep (timeout_duration client_timeout g.server_timeout);
        },
        record g { inner = inner' },
      )

  unfoldable pub call : GrpcTimeout S → Req → Run (ResponseFuture F Sleep × GrpcTimeout S)
  call g req = elim (try_parse_grpc_timeout http (headers req)) [
    | panic ↦ panic
    | done parsed ↦ done (respond g req parsed)
  ]
