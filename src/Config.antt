-- ===== src/Config.antt =====
-- src/config.rs: the configuration, its default and its setters.
pub mod Setters
pub mod Settings
pub mod Builder
pub mod Alpn
use sui_http.Prelude.{ℕ, Bool, true, false, Option, none, some, Duration, from_secs}

abbrev pub default_http1_header_read_timeout_secs : ℕ
default_http1_header_read_timeout_secs = 30

abbrev pub default_max_concurrent_streams : ℕ
default_max_concurrent_streams = 200

abbrev pub default_tls_handshake_timeout : Duration
default_tls_handshake_timeout = from_secs 5

abbrev pub default_max_pending_connections : ℕ
default_max_pending_connections = 4_096

pub record Config : Type 0 where
  pub init_stream_window_size : Option ℕ
  pub init_connection_window_size : Option ℕ
  pub max_concurrent_streams : Option ℕ
  pub tcp_keepalive : Option Duration
  pub tcp_nodelay : Bool
  pub http2_keepalive_interval : Option Duration
  pub http2_keepalive_timeout : Option Duration
  pub http2_adaptive_window : Option Bool
  pub http2_max_pending_accept_reset_streams : Option ℕ
  pub http2_max_header_list_size : Option ℕ
  pub max_frame_size : Option ℕ
  pub http1_header_read_timeout : Option Duration
  pub accept_http1 : Bool
  pub enable_connect_protocol : Bool
  pub max_connection_age : Option Duration
  pub max_connection_age_grace : Option Duration
  pub tls_handshake_timeout : Duration
  pub max_pending_connections : ℕ

abbrev pub default : Config
default = record {
  init_stream_window_size = none;
  init_connection_window_size = none;
  max_concurrent_streams = some default_max_concurrent_streams;
  tcp_keepalive = none;
  tcp_nodelay = true;
  http2_keepalive_interval = none;
  http2_keepalive_timeout = none;
  http2_adaptive_window = none;
  http2_max_pending_accept_reset_streams = none;
  http2_max_header_list_size = none;
  max_frame_size = none;
  http1_header_read_timeout = some (from_secs default_http1_header_read_timeout_secs);
  accept_http1 = true;
  enable_connect_protocol = true;
  max_connection_age = none;
  max_connection_age_grace = none;
  tls_handshake_timeout = default_tls_handshake_timeout;
  max_pending_connections = default_max_pending_connections;
}
