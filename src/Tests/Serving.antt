-- ===== src/Tests/Serving.antt =====
-- Tests of the server: a TLS connection is accepted, served, and aborted in a forced shutdown.
use sui_http.Prelude.{none, ℕ, ◌≡◌, refl, not, true, false, Option, some, [], ◌∷◌, codes}
use sui_http.Config.{Config, default}
use sui_http.Config.Setters
use sui_http.Config.Builder.{connection_builder}
use sui_http.Config.Alpn.{
  alpn_h1, alpn_h2, alpn_protocols, offers, same, pins_http2, alpn_protocols-agrees,
}
use sui_http.Server
use sui_http.Server.{Server, serving, stopped, number_of_connections}
use sui_http.Server.Tasks.{Work, in_progress, take_at}
use sui_http.Server.Io.{peer_certs}
use sui_http.Server.Tracked.{Tracked, Reaches-Tracked}
use sui_http.Server.Pending.{Bounded, Reaches-Bounded}
use sui_http.Connection.Info.{ConnectionInfo, ConnectInfo}
use sui_http.Connection.Registry.{lookup}
use sui_http.Server.Requests.{Extensions, extend, extend-lookup}
use sui_http.Server.Stopped.{stopped-IsEmpty}
use sui_http.Tests.States.{certificates, s3, s5, s6, running, served, shut}

abbrev http2_config : Config
http2_config = Setters.accept_http1 false default

alpn_protocols-agrees_example :
    (offers alpn_h1 (alpn_protocols http2_config (codes "spdy/3" ∷ []))
      ≡ not (pins_http2 (connection_builder http2_config)))
    × (offers alpn_h2 (alpn_protocols http2_config (codes "spdy/3" ∷ [])) ≡ true)
unfolding offers same
alpn_protocols-agrees_example = alpn_protocols-agrees http2_config (codes "spdy/3" ∷ []) refl

number_of_connections_test :
    (number_of_connections s3 ≡ 1)
    × (number_of_connections s6 ≡ 0)
    × (Server.is_shutdown s5 ≡ false)
    × (Server.is_shutdown s6 ≡ true)
unfolding running Server.is_shutdown
number_of_connections_test = (refl, refl, refl, refl)

Reaches-Tracked_example : Tracked s3
Reaches-Tracked_example = Reaches-Tracked certificates default true 443 s3 served

Reaches-Bounded_example : Bounded default true s3
Reaches-Bounded_example = Reaches-Bounded certificates default true 443 s3 served

stopped-IsEmpty_example :
    (s6.cancelled ≡ true)
    × (s6.pending_connections ≡ [])
    × (s6.connection_handlers ≡ [])
    × (number_of_connections s6 ≡ 0)
unfolding running
stopped-IsEmpty_example = stopped-IsEmpty certificates default true 443 s6 shut refl

-- A request is its two extensions.
abbrev extensions : Extensions ℕ ℕ
extensions = record {
  Request = Option (ConnectInfo ℕ) × Option ℕ;
  info = λ r. r.0;
  certs = λ r. r.1;
  insert_info = λ i r. (some i, r.1);
  insert_certs = λ c r. (r.0, some c);
  info-insert_info = λ i r. refl;
  certs-insert_info = λ i r. refl;
  info-insert_certs = λ c r. refl;
  certs-insert_certs = λ c r. refl;
}

abbrev work : Work ℕ ℕ
work = record {
  builder = connection_builder default;
  max_connection_age = none;
  max_connection_age_grace = none;
  connect_info = record { local_addr = 443; remote_addr = 5000 };
  peer_certificates = some 9;
  on_connection_close = record { id = 64 };
}

first_handler : take_at 0 s3.connection_handlers ≡ some (in_progress work, [])
unfolding running peer_certs
first_handler = refl

extend-lookup_example :
    (c : ConnectionInfo ℕ ℕ) × (lookup 64 s3.connections ≡ some c)
    × (extensions.certs (extend extensions work (none, none)) ≡ c.peer_certificates)
    × (i : ConnectInfo ℕ) × (extensions.info (extend extensions work (none, none)) ≡ some i)
    × (i.remote_addr ≡ c.address)
extend-lookup_example =
    extend-lookup extensions certificates default true 443 s3 0 work [] (none, none) served
      first_handler refl
