-- ===== src/Config/Settings/Fields.antt =====
-- The fields of `Config`, and the one that each setter writes.
use sui_http.Prelude.{ℕ, Bool, ◌==◌, Option, some}
use sui_http.Config.{Config}
use sui_http.Config.Settings.{Setting}

pub data Field : Type 0 where
  init_stream_window_size : Field
  init_connection_window_size : Field
  max_concurrent_streams : Field
  tcp_keepalive : Field
  tcp_nodelay : Field
  http2_keepalive_interval : Field
  http2_keepalive_timeout : Field
  http2_adaptive_window : Field
  http2_max_pending_accept_reset_streams : Field
  http2_max_header_list_size : Field
  max_frame_size : Field
  http1_header_read_timeout : Field
  accept_http1 : Field
  enable_connect_protocol : Field
  max_connection_age : Field
  max_connection_age_grace : Field
  tls_handshake_timeout : Field
  max_pending_connections : Field

abbrev pub position : Field → ℕ
position init_stream_window_size = 0
position init_connection_window_size = 1
position max_concurrent_streams = 2
position tcp_keepalive = 3
position tcp_nodelay = 4
position http2_keepalive_interval = 5
position http2_keepalive_timeout = 6
position http2_adaptive_window = 7
position http2_max_pending_accept_reset_streams = 8
position http2_max_header_list_size = 9
position max_frame_size = 10
position http1_header_read_timeout = 11
position accept_http1 = 12
position enable_connect_protocol = 13
position max_connection_age = 14
position max_connection_age_grace = 15
position tls_handshake_timeout = 16
position max_pending_connections = 17

pub data Value : Type 0 where
  number : Option ℕ → Value
  flag : Option Bool → Value

abbrev pub read : Field → Config → Value
read init_stream_window_size c = number c.init_stream_window_size
read init_connection_window_size c = number c.init_connection_window_size
read max_concurrent_streams c = number c.max_concurrent_streams
read tcp_keepalive c = number c.tcp_keepalive
read tcp_nodelay c = flag (some c.tcp_nodelay)
read http2_keepalive_interval c = number c.http2_keepalive_interval
read http2_keepalive_timeout c = number c.http2_keepalive_timeout
read http2_adaptive_window c = flag c.http2_adaptive_window
read http2_max_pending_accept_reset_streams c = number c.http2_max_pending_accept_reset_streams
read http2_max_header_list_size c = number c.http2_max_header_list_size
read max_frame_size c = number c.max_frame_size
read http1_header_read_timeout c = number c.http1_header_read_timeout
read accept_http1 c = flag (some c.accept_http1)
read enable_connect_protocol c = flag (some c.enable_connect_protocol)
read max_connection_age c = number c.max_connection_age
read max_connection_age_grace c = number c.max_connection_age_grace
read tls_handshake_timeout c = number (some c.tls_handshake_timeout)
read max_pending_connections c = number (some c.max_pending_connections)

-- The field that a call sets, and what the field holds then.
abbrev pub field_of : Setting → Field
field_of (Setting.initial_stream_window_size x) = Field.init_stream_window_size
field_of (Setting.initial_connection_window_size x) = Field.init_connection_window_size
field_of (Setting.max_concurrent_streams x) = Field.max_concurrent_streams
field_of (Setting.max_connection_age x) = Field.max_connection_age
field_of (Setting.max_connection_age_grace x) = Field.max_connection_age_grace
field_of (Setting.http2_keepalive_interval x) = Field.http2_keepalive_interval
field_of (Setting.http2_keepalive_timeout x) = Field.http2_keepalive_timeout
field_of (Setting.http2_adaptive_window x) = Field.http2_adaptive_window
field_of (Setting.http2_max_pending_accept_reset_streams x) =
    Field.http2_max_pending_accept_reset_streams
field_of (Setting.tcp_keepalive x) = Field.tcp_keepalive
field_of (Setting.tcp_nodelay x) = Field.tcp_nodelay
field_of (Setting.http2_max_header_list_size x) = Field.http2_max_header_list_size
field_of (Setting.max_frame_size x) = Field.max_frame_size
field_of (Setting.http1_header_read_timeout x) = Field.http1_header_read_timeout
field_of (Setting.accept_http1 x) = Field.accept_http1
field_of (Setting.tls_handshake_timeout x) = Field.tls_handshake_timeout
field_of (Setting.max_pending_connections x) = Field.max_pending_connections

abbrev pub value_of : Setting → Value
value_of (Setting.initial_stream_window_size x) = number x
value_of (Setting.initial_connection_window_size x) = number x
value_of (Setting.max_concurrent_streams x) = number x
value_of (Setting.max_connection_age x) = number (some x)
value_of (Setting.max_connection_age_grace x) = number (some x)
value_of (Setting.http2_keepalive_interval x) = number x
value_of (Setting.http2_keepalive_timeout x) = number x
value_of (Setting.http2_adaptive_window x) = flag x
value_of (Setting.http2_max_pending_accept_reset_streams x) = number x
value_of (Setting.tcp_keepalive x) = number x
value_of (Setting.tcp_nodelay x) = flag (some x)
value_of (Setting.http2_max_header_list_size x) = number x
value_of (Setting.max_frame_size x) = number x
value_of (Setting.http1_header_read_timeout x) = number x
value_of (Setting.accept_http1 x) = flag (some x)
value_of (Setting.tls_handshake_timeout x) = number (some x)
value_of (Setting.max_pending_connections x) = number (some x)

abbrev pub sets : Setting → Field → Bool
sets s f = position (field_of s) == position f
