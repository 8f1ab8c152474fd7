-- ===== src/Config/Builder.antt =====
-- src/config.rs, `connection_builder`: the calls that it makes on hyper-util's builder, in order.
use sui_http.Prelude.{
  ℕ, Bool, false, not, Option, none, some, List, [], ◌∷◌, ◌++◌, Duration, from_secs, if◌then◌else◌,
}
use sui_http.Config.{Config}

abbrev pub default_http2_keepalive_timeout_secs : ℕ
default_http2_keepalive_timeout_secs = 20

-- The methods of hyper-util's builder that the source calls.
pub data Call : Type 0 where
  http2_only enable_connect_protocol http1_timer http2_timer : Call
  header_read_timeout keep_alive_interval : Option Duration → Call
  initial_connection_window_size : Option ℕ → Call
  initial_stream_window_size : Option ℕ → Call
  max_concurrent_streams : Option ℕ → Call
  max_pending_accept_reset_streams : Option ℕ → Call
  max_frame_size : Option ℕ → Call
  keep_alive_timeout : Duration → Call
  adaptive_window : Bool → Call
  max_header_list_size : ℕ → Call

abbrev pub unwrap_or {ℓ} : {A : Type ℓ} → Option A → A → A
unwrap_or none d = d
unwrap_or (some a) d = a

abbrev pub header_list_calls : Option ℕ → List Call
header_list_calls none = []
header_list_calls (some max) = max_header_list_size max ∷ []

abbrev pub http2_only_calls : Bool → List Call
http2_only_calls accept_http1 = if not accept_http1 then http2_only ∷ [] else []

abbrev pub connect_calls : Bool → List Call
connect_calls enabled = if enabled then enable_connect_protocol ∷ [] else []

abbrev pub option_calls : Config → List Call
option_calls c =
    http1_timer
    ∷ header_read_timeout c.http1_header_read_timeout
    ∷ http2_timer
    ∷ initial_connection_window_size c.init_connection_window_size
    ∷ initial_stream_window_size c.init_stream_window_size
    ∷ max_concurrent_streams c.max_concurrent_streams
    ∷ keep_alive_interval c.http2_keepalive_interval
    ∷ keep_alive_timeout
        (unwrap_or c.http2_keepalive_timeout (from_secs default_http2_keepalive_timeout_secs))
    ∷ adaptive_window (unwrap_or c.http2_adaptive_window false)
    ∷ max_pending_accept_reset_streams c.http2_max_pending_accept_reset_streams
    ∷ max_frame_size c.max_frame_size
    ∷ []

unfoldable pub connection_builder : Config → List Call
connection_builder c =
    http2_only_calls c.accept_http1
    ++ (connect_calls c.enable_connect_protocol
        ++ (option_calls c ++ header_list_calls c.http2_max_header_list_size))
