-- ===== src/Server/Build.antt =====
-- src/lib.rs, `Builder`. rustls' `ServerConfig`, its loaders and the sockets are parameters; the
-- errors of all of them are boxed.
pub mod Outcome
use sui_http.Prelude.{
  ◌≡◌, Bool, true, false, Option, none, some, List, Result, ok, err, collect, Bytes,
}
use sui_http.Config.{Config, default}
use sui_http.Config.Alpn.{alpn_protocols}
use sui_http.Listener.Tcp
use sui_http.Listener.Tcp.{TcpListenerWithOptions, ◌>>=◌}
use sui_http.Server
use sui_http.Server.{Server}

-- The field of `rustls::ServerConfig` that the source writes.
pub record Rustls : Type 1 where
  pub ServerConfig : Type 0
  pub alpn : ServerConfig → List Bytes
  pub set_alpn : List Bytes → ServerConfig → ServerConfig
  pub alpn-set_alpn : (ps : List Bytes) (t : ServerConfig) → alpn (set_alpn ps t) ≡ ps

pub record Builder (Tls : Type 0) : Type 0 where
  pub config : Config
  pub tls_config : Option Tls

unfoldable pub new : {Tls : Type 0} → Builder Tls
new = record { config = default; tls_config = none }

unfoldable pub config : {Tls : Type 0} → Config → Builder Tls → Builder Tls
config c b = record b { config = c }

unfoldable pub tls_config : {Tls : Type 0} → Tls → Builder Tls → Builder Tls
tls_config t b = record b { tls_config = some t }

-- The certificate chain, the key, then a configuration of both.
unfoldable pub tls_single_cert :
    {Tls File Cert Key E : Type 0}
    → (File → Result (List (Result Cert E)) E)
    → (File → Result Key E)
    → (List Cert → Key → Result Tls E)
    → File
    → File
    → Builder Tls
    → Result (Builder Tls) E
unfolding tls_config
tls_single_cert pem_file_iter from_pem_file with_single_cert cert_file private_key_file b = do
  read ← pem_file_iter cert_file
  certs ← collect read
  private_key ← from_pem_file private_key_file
  t ← with_single_cert certs private_key
  ok (tls_config t b)

-- What `serve` sets going: the listener, its TLS configuration, the server that reads both, and
-- the address that the handle gives.
pub record Started (L Tls A I S Certs E : Type 0) : Type 0 where
  pub listener : L
  pub tls_config : Option Tls
  pub server : Server A I S Certs E
  pub local_addr : A

module _ (r : Rustls) where
  open r use {ServerConfig, alpn, set_alpn}

  unfoldable pub advertise : Config → Option ServerConfig → Option ServerConfig
  advertise c none = none
  advertise c (some t) = some (set_alpn (alpn_protocols c (alpn t)) t)

abbrev pub is_some : {A : Type 0} → Option A → Bool
is_some none = false
is_some (some a) = true

module _ (r : Rustls) {L A I S Certs E Err : Type 0} (local_addr : L → Result A Err) where
  unfoldable pub serve_with_listener :
      Builder r.ServerConfig → L → Result (Started L r.ServerConfig A I S Certs E) Err
  unfolding advertise Server.start
  serve_with_listener b listener = do
    addr ← local_addr listener
    ok (record {
      listener = listener;
      tls_config = advertise r b.config b.tls_config;
      server = Server.start b.config (is_some b.tls_config) addr;
      local_addr = addr;
    })

module _ (r : Rustls) {Addr Std L A I S Certs E Err : Type 0} (bind : Addr → Result Std Err)
    (set_nonblocking : Std → Bool → Result Std Err) (from_std : Std → Result L Err)
    (local_addr : L → Result A Err) where
  unfoldable pub serve :
      Builder r.ServerConfig
      → Addr
      → Result (Started (TcpListenerWithOptions L) r.ServerConfig A I S Certs E) Err
  unfolding Tcp.new Tcp.local_addr serve_with_listener
  serve b addr = do
    listener ←
        Tcp.new bind set_nonblocking from_std addr b.config.tcp_nodelay b.config.tcp_keepalive
    serve_with_listener r (Tcp.local_addr local_addr) b listener
