-- ===== src/Config/Settings.antt =====
-- src/config.rs: a chain of calls of the setters.
pub mod Fields
pub mod Last
use sui_http.Prelude.{
  ℕ, ◌≡◌, refl, sym, ap, ◌∙◌, Bool, true, false, ◌==◌, Option, none, some, List, [], ◌∷◌, Duration,
  if◌then◌else◌, arith,
}
use sui_http.Config.{Config}
use sui_http.Config.Setters

-- One call of a setter.
pub data Setting : Type 0 where
  initial_stream_window_size : Option ℕ → Setting
  initial_connection_window_size : Option ℕ → Setting
  max_concurrent_streams : Option ℕ → Setting
  max_connection_age : Duration → Setting
  max_connection_age_grace : Duration → Setting
  http2_keepalive_interval : Option Duration → Setting
  http2_keepalive_timeout : Option Duration → Setting
  http2_adaptive_window : Option Bool → Setting
  http2_max_pending_accept_reset_streams : Option ℕ → Setting
  tcp_keepalive : Option Duration → Setting
  tcp_nodelay : Bool → Setting
  http2_max_header_list_size : Option ℕ → Setting
  max_frame_size : Option ℕ → Setting
  http1_header_read_timeout : Option Duration → Setting
  accept_http1 : Bool → Setting
  tls_handshake_timeout : Duration → Setting
  max_pending_connections : ℕ → Setting

unfoldable pub set : Setting → Config → Config
unfolding Setters.initial_stream_window_size Setters.initial_connection_window_size
    Setters.max_concurrent_streams Setters.max_connection_age Setters.max_connection_age_grace
    Setters.http2_keepalive_interval Setters.http2_keepalive_timeout Setters.http2_adaptive_window
    Setters.http2_max_pending_accept_reset_streams Setters.tcp_keepalive Setters.tcp_nodelay
    Setters.http2_max_header_list_size Setters.max_frame_size Setters.http1_header_read_timeout
    Setters.accept_http1 Setters.tls_handshake_timeout Setters.max_pending_connections
set (initial_stream_window_size x) c = Setters.initial_stream_window_size x c
set (initial_connection_window_size x) c = Setters.initial_connection_window_size x c
set (max_concurrent_streams x) c = Setters.max_concurrent_streams x c
set (max_connection_age x) c = Setters.max_connection_age x c
set (max_connection_age_grace x) c = Setters.max_connection_age_grace x c
set (http2_keepalive_interval x) c = Setters.http2_keepalive_interval x c
set (http2_keepalive_timeout x) c = Setters.http2_keepalive_timeout x c
set (http2_adaptive_window x) c = Setters.http2_adaptive_window x c
set (http2_max_pending_accept_reset_streams x) c =
    Setters.http2_max_pending_accept_reset_streams x c
set (tcp_keepalive x) c = Setters.tcp_keepalive x c
set (tcp_nodelay x) c = Setters.tcp_nodelay x c
set (http2_max_header_list_size x) c = Setters.http2_max_header_list_size x c
set (max_frame_size x) c = Setters.max_frame_size x c
set (http1_header_read_timeout x) c = Setters.http1_header_read_timeout x c
set (accept_http1 x) c = Setters.accept_http1 x c
set (tls_handshake_timeout x) c = Setters.tls_handshake_timeout x c
set (max_pending_connections x) c = Setters.max_pending_connections x c

-- `Config::default().a(x).b(y)` and so on, from a configuration.
unfoldable pub set_all : List Setting → Config → Config
set_all [] c = c
set_all (s ∷ ss) c = set_all ss (set s c)
