-- ===== src/Config/Settings/Last.antt =====
-- The last call of a setter decides.
use sui_http.Prelude.{
  ◌≡◌, refl, ap, ◌∙◌, Bool, true, false, Option, none, some, List, [], ◌∷◌, if◌then◌else◌,
}
use sui_http.Config.{Config}
use sui_http.Config.Settings.{Setting, set, set_all}
use sui_http.Config.Settings.Fields.{Field, Value, read, value_of, sets}

abbrev pub or_set : Option Value → Bool → Value → Option Value
or_set (some v) b w = some v
or_set none b w = if b then some w else none

-- The value of the last call that sets the field.
pub last : Field → List Setting → Option Value
last f [] = none
last f (s ∷ ss) = or_set (last f ss) (sets s f) (value_of s)

abbrev pub value_or : Option Value → Value → Value
value_or none v = v
value_or (some w) v = w

read-set :
    (s : Setting) (f : Field) (c : Config)
    → read f (set s c) ≡ (if sets s f then value_of s else read f c)
unfolding set
read-set (Setting.initial_stream_window_size x) Field.init_stream_window_size c = refl
read-set (Setting.initial_stream_window_size x) _ c = refl
read-set (Setting.initial_connection_window_size x) Field.init_stream_window_size c = refl
read-set (Setting.initial_connection_window_size x) _ c = refl
read-set (Setting.max_concurrent_streams x) Field.init_stream_window_size c = refl
read-set (Setting.max_concurrent_streams x) _ c = refl
read-set (Setting.max_connection_age x) Field.init_stream_window_size c = refl
read-set (Setting.max_connection_age x) _ c = refl
read-set (Setting.max_connection_age_grace x) Field.init_stream_window_size c = refl
read-set (Setting.max_connection_age_grace x) _ c = refl
read-set (Setting.http2_keepalive_interval x) Field.init_stream_window_size c = refl
read-set (Setting.http2_keepalive_interval x) _ c = refl
read-set (Setting.http2_keepalive_timeout x) Field.init_stream_window_size c = refl
read-set (Setting.http2_keepalive_timeout x) _ c = refl
read-set (Setting.http2_adaptive_window x) Field.init_stream_window_size c = refl
read-set (Setting.http2_adaptive_window x) _ c = refl
read-set (Setting.http2_max_pending_accept_reset_streams x) Field.init_stream_window_size c = refl
read-set (Setting.http2_max_pending_accept_reset_streams x) _ c = refl
read-set (Setting.tcp_keepalive x) Field.init_stream_window_size c = refl
read-set (Setting.tcp_keepalive x) _ c = refl
read-set (Setting.tcp_nodelay x) Field.init_stream_window_size c = refl
read-set (Setting.tcp_nodelay x) _ c = refl
read-set (Setting.http2_max_header_list_size x) Field.init_stream_window_size c = refl
read-set (Setting.http2_max_header_list_size x) _ c = refl
read-set (Setting.max_frame_size x) Field.init_stream_window_size c = refl
read-set (Setting.max_frame_size x) _ c = refl
read-set (Setting.http1_header_read_timeout x) Field.init_stream_window_size c = refl
read-set (Setting.http1_header_read_timeout x) _ c = refl
read-set (Setting.accept_http1 x) Field.init_stream_window_size c = refl
read-set (Setting.accept_http1 x) _ c = refl
read-set (Setting.tls_handshake_timeout x) Field.init_stream_window_size c = refl
read-set (Setting.tls_handshake_timeout x) _ c = refl
read-set (Setting.max_pending_connections x) Field.init_stream_window_size c = refl
read-set (Setting.max_pending_connections x) _ c = refl

value_or-or_set :
    (o : Option Value) (b : Bool) (v w : Value)
    → value_or o (if b then v else w) ≡ value_or (or_set o b v) w
value_or-or_set (some u) b v w = refl
value_or-or_set none true v w = refl
value_or-or_set none false v w = refl

-- Whatever setters are called, in any order and as often as one likes, each field holds the value of
-- the last call that sets it, and what it held before if none does.
pub read-set_all :
    (f : Field) (ss : List Setting) (c : Config)
    → read f (set_all ss c) ≡ value_or (last f ss) (read f c)
unfolding set_all last
read-set_all f [] c = refl
read-set_all f (s ∷ ss) c =
    read-set_all f ss (set s c)
    ∙ ap (value_or (last f ss)) (read-set s f c)
    ∙ value_or-or_set (last f ss) (sets s f) (value_of s) (read f c)
