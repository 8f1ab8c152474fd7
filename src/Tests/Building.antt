-- ===== src/Tests/Building.antt =====
-- Tests of the builder, its configuration, the streams and the boxed bodies.
use mathlib.Core.Bool.{Bool-discrete}
use sui_http.Prelude.{
  ℕ, zero, suc, ◌+◌, ◌≡◌, ◌≢◌, ◌⊎◌, refl, Bool, true, false, some, List, [], ◌∷◌, Result, ok, err,
  done, subst, Bytes,
}
use sui_http.Config.{default}
use sui_http.Config.Settings.{Setting, set_all}
use sui_http.Config.Settings.Fields
use sui_http.Config.Settings.Fields.{Field}
use sui_http.Config.Settings.Last.{last, value_or, read-set_all}
use sui_http.Listener.Tcp.{TcpListenerWithOptions}
use sui_http.Server.Build.{Rustls, Builder, Started, serve}
use sui_http.Server.Build.Outcome.{Serving, Failed, serve_outcome}
use sui_http.BoxBody.{Types, boxed}
use sui_http.BoxBody.Twice.{boxed-boxed}

abbrev calls : List Setting
calls =
    Setting.accept_http1 false
    ∷ Setting.max_pending_connections 3
    ∷ Setting.accept_http1 true
    ∷ Setting.max_pending_connections 5
    ∷ []

read-set_all_example :
    Fields.read Field.max_pending_connections (set_all calls default)
    ≡ value_or
        (last Field.max_pending_connections calls)
        (Fields.read Field.max_pending_connections default)
read-set_all_example = read-set_all Field.max_pending_connections calls default

-- A `ServerConfig` is its protocols. Sockets are numbers, and the port 0 cannot be bound.
abbrev rustls : Rustls
rustls = record {
  ServerConfig = List Bytes;
  alpn = λ t. t;
  set_alpn = λ ps t. ps;
  alpn-set_alpn = λ ps t. refl;
}

abbrev bind : ℕ → Result ℕ ℕ
bind zero = err 13
bind (suc port) = ok (suc port)

abbrev builder : Builder (List Bytes)
builder = record { config = default; tls_config = some [] }

serve_outcome_example :
    let out : Result (Started (TcpListenerWithOptions ℕ) (List Bytes) ℕ ℕ ℕ ℕ ℕ) ℕ =
      serve rustls bind (λ std b. ok std) ok ok builder 443 in
    ((h : Started (TcpListenerWithOptions ℕ) (List Bytes) ℕ ℕ ℕ ℕ ℕ) × (out ≡ ok h)
      × Serving rustls bind (λ std b. ok std) ok ok builder 443 h)
    ⊎ ((e : ℕ) × (out ≡ err e) × Failed bind (λ std b. ok std) ok ok 443 e)
serve_outcome_example = serve_outcome rustls bind (λ std b. ok std) ok ok builder 443

-- Two types of bodies: `true` is `BoxBody`, a number here.
abbrev types : Types
types = record {
  Code = Bool;
  El = λ k. ℕ;
  same_type = Bool-discrete;
  box_body = true;
  box_unsync = λ k body. body + 100;
}

boxed-boxed_example :
    (b : ℕ) × (boxed types false 7 ≡ done b)
    × (boxed types true b ≡ done b)
    × (((p : false ≡ true) × (b ≡ subst types.El p 7)) ⊎ ((false ≢ true) × (b ≡ 107)))
boxed-boxed_example = boxed-boxed types false 7
