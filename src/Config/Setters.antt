-- ===== src/Config/Setters.antt =====
-- src/config.rs: the setters of `Config`.
use sui_http.Prelude.{ℕ, Bool, Option, some, Duration}
use sui_http.Config.{Config}

unfoldable pub initial_stream_window_size : Option ℕ → Config → Config
initial_stream_window_size sz c = record c { init_stream_window_size = sz }

unfoldable pub initial_connection_window_size : Option ℕ → Config → Config
initial_connection_window_size sz c = record c { init_connection_window_size = sz }

unfoldable pub max_concurrent_streams : Option ℕ → Config → Config
max_concurrent_streams max c = record c { max_concurrent_streams = max }

unfoldable pub max_connection_age : Duration → Config → Config
max_connection_age value c = record c { max_connection_age = some value }

unfoldable pub max_connection_age_grace : Duration → Config → Config
max_connection_age_grace value c = record c { max_connection_age_grace = some value }

unfoldable pub http2_keepalive_interval : Option Duration → Config → Config
http2_keepalive_interval value c = record c { http2_keepalive_interval = value }

unfoldable pub http2_keepalive_timeout : Option Duration → Config → Config
http2_keepalive_timeout value c = record c { http2_keepalive_timeout = value }

unfoldable pub http2_adaptive_window : Option Bool → Config → Config
http2_adaptive_window enabled c = record c { http2_adaptive_window = enabled }

unfoldable pub http2_max_pending_accept_reset_streams : Option ℕ → Config → Config
http2_max_pending_accept_reset_streams max c = record c {
  http2_max_pending_accept_reset_streams = max;
}

unfoldable pub tcp_keepalive : Option Duration → Config → Config
tcp_keepalive value c = record c { tcp_keepalive = value }

unfoldable pub tcp_nodelay : Bool → Config → Config
tcp_nodelay enabled c = record c { tcp_nodelay = enabled }

unfoldable pub http2_max_header_list_size : Option ℕ → Config → Config
http2_max_header_list_size max c = record c { http2_max_header_list_size = max }

unfoldable pub max_frame_size : Option ℕ → Config → Config
max_frame_size frame_size c = record c { max_frame_size = frame_size }

unfoldable pub http1_header_read_timeout : Option Duration → Config → Config
http1_header_read_timeout timeout c = record c { http1_header_read_timeout = timeout }

unfoldable pub accept_http1 : Bool → Config → Config
accept_http1 value c = record c { accept_http1 = value }

unfoldable pub tls_handshake_timeout : Duration → Config → Config
tls_handshake_timeout timeout c = record c { tls_handshake_timeout = timeout }

unfoldable pub max_pending_connections : ℕ → Config → Config
max_pending_connections max c = record c { max_pending_connections = max }
