-- ===== src/GrpcTimeout/Service/Shortest.antt =====
-- The timer that `call` arms is the shortest of the timeouts that apply.
use mathlib.Core.Option
use sui_http.Prelude.{
  ◌≤◌, sym, ap, ◌∙◌, ◌≡◌, ◌⊎◌, refl, inl, inr, Option, none, some, ok, err, done, Duration, Bytes,
  arith,
}
use sui_http.Prelude.Http.{Http}
use sui_http.GrpcTimeout.Parse.{Parsed, grpc_timeout_header, try_parse_grpc_timeout}
use sui_http.GrpcTimeout.Parse.Grammar.{IsTimeout}
use sui_http.GrpcTimeout.Parse.Accepts.{try_parse_total, try_parse_iff}
use sui_http.GrpcTimeout.Service.{GrpcTimeout, or_none, timeout_duration, respond, call}

-- `x` is among the given timeouts, and is the least of them.
abbrev pub IsShortest : (Duration → Type 0) → Duration → Type 0
IsShortest Given x = Given x × ((y : Duration) → Given y → x ≤ y)

abbrev OneOf : Option Duration → Option Duration → Duration → Type 0
OneOf client server y = (client ≡ some y) ⊎ (server ≡ some y)

-- The least of the timeouts given, or none where none is given.
abbrev pub Shortest : (Duration → Type 0) → Option Duration → Type 0
Shortest Given none = (y : Duration) → ¬ Given y
Shortest Given (some x) = IsShortest Given x

timeout_duration-Shortest :
    (client server : Option Duration)
    → Shortest (OneOf client server) (timeout_duration client server)
unfolding timeout_duration
timeout_duration-Shortest none none = λ y k. ground arith
timeout_duration-Shortest (some a) none = (ground arith, λ y k. ground arith)
timeout_duration-Shortest none (some b) = (ground arith, λ y k. ground arith)
timeout_duration-Shortest (some a) (some b) = (ground arith, λ y k. ground arith)

or_none_iff : (p : Parsed) (y : Duration) → or_none p ≡ some y → p ≡ ok (some y)
or_none_iff (ok d) y h = cc
or_none_iff (err v) y h = cc

module _ (http : Http) {S F Req Sleep : Type 0} (headers : Req → http.HeaderMap)
    (inner_call : S → Req → F × S) (sleep : Duration → Sleep) where
  -- A timeout that applies to a request: the server's, or one that the header denotes.
  abbrev pub Applies : GrpcTimeout S → Req → Duration → Type 0
  Applies g req y =
      (g.server_timeout ≡ some y)
      ⊎ ((v : Bytes) × (http.get (headers req) grpc_timeout_header ≡ some v) × IsTimeout v y)

  parsed_total : (h : http.HeaderMap) → (p : Parsed) × (try_parse_grpc_timeout http h ≡ done p)
  parsed_total h = elim (try_parse_total http h) [
    | inl (e, f) ↦ (ok none, f)
    | inr (v, e, inl f) ↦ (err v, f)
    | inr (v, e, inr (d, f, t)) ↦ (ok (some d), f)
  ]

  module _ (g : GrpcTimeout S) (req : Req) {p : Parsed}
      (e : try_parse_grpc_timeout http (headers req) ≡ done p) where
    Applies-of : {y : Duration} → OneOf (or_none p) g.server_timeout y → Applies g req y
    Applies-of {y} (inl k) =
        inr ((try_parse_iff http (headers req) y).0 (e ∙ ap done (or_none_iff p y k)))
    Applies-of (inr k) = inl k

    one_of : {y : Duration} → Applies g req y → OneOf (or_none p) g.server_timeout y
    one_of (inl k) = inr k
    one_of {y} (inr t) =
        let same : done p ≡ done (ok (some y)) = sym e ∙ (try_parse_iff http (headers req) y).1 t in
        inl (ground arith)

    Shortest-of :
        (d : Option Duration)
        → Shortest (OneOf (or_none p) g.server_timeout) d
        → Shortest (Applies g req) d
    Shortest-of none h = λ y k. h y (one_of k)
    Shortest-of (some x) (here, least) = (Applies-of here, λ y k. least y (one_of k))

  -- `call` does not panic; it passes the request on to the inner service, and arms a timer for the
  -- shortest of the timeouts that apply, the server's and what the header denotes, and none where
  -- none applies.
  pub call-IsShortest :
      (g : GrpcTimeout S) (req : Req)
      → (d : Option Duration) × (call http headers inner_call sleep g req
          ≡ done (
            record { inner = (inner_call g.inner req).0; sleep = Option.map sleep d },
            record g { inner = (inner_call g.inner req).1 },
          ))
        × Shortest (Applies g req) d
  unfolding call respond
  call-IsShortest g req =
      let (p, e) = parsed_total (headers req) in
      let d : Option Duration = timeout_duration (or_none p) g.server_timeout in
      (d, rw (e, call) refl, Shortest-of g req e d (timeout_duration-Shortest _ _))
