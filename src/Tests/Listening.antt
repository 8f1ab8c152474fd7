-- ===== src/Tests/Listening.antt =====
-- Tests of the listeners.
use sui_http.Prelude.{
  ℕ, ◌≡◌, refl, Bool, true, false, Option, none, some, List, [], ◌∷◌, ◌++◌, map, ok, err, done,
  Duration, from_secs, from_millis,
}
use sui_http.Listener.Backoff
use sui_http.Listener.Backoff.{ErrorKind, connection_reset, other}
use sui_http.Listener.Backoff.Schedule
use sui_http.Listener.Backoff.Schedule.{delays, serious, accept-delays}
use sui_http.Listener.Tcp
use sui_http.Listener.Tcp.{Socket, TcpListenerWithOptions}
use sui_http.Listener.Tcp.Options.{IsConfigured, accept-IsConfigured}

abbrev failures : List ErrorKind
failures = other 24 ∷ connection_reset ∷ other 24 ∷ other 12 ∷ []

delays_test : delays 0 (serious failures) ≡ from_millis 5 ∷ from_millis 10 ∷ from_millis 20 ∷ []
unfolding Backoff.is_connection_error Schedule.delay
delays_test = refl

accept-delays_example :
    Backoff.accept {C = ℕ} (map err failures ++ ok 7 ∷ [])
    ≡ done (delays 0 (serious failures), some 7)
accept-delays_example = accept-delays failures 7 []

-- A socket whose calls succeed.
abbrev Options : Type 0
Options = Bool × Option Duration

abbrev socket : Socket
socket = record {
  Stream = Options;
  Error = ℕ;
  nodelay = λ s. s.0;
  keepalive = λ s. s.1;
  set_nodelay = λ s b. (ok tt, (b, s.1));
  set_tcp_keepalive = λ s d. (ok tt, (s.0, some d));
  set_nodelay_keepalive = λ s b. refl;
  set_nodelay_ok = λ s b h. refl;
  set_tcp_keepalive_nodelay = λ s d. refl;
  set_tcp_keepalive_ok = λ s d h. refl;
}

abbrev port : ℕ
port = 80

abbrev configured : TcpListenerWithOptions ℕ
configured = record { inner = 3; nodelay = true; keepalive = some (from_secs 60) }

accept-IsConfigured_example :
    (io : Options) × (Tcp.accept socket configured
        (map err failures ++ ok ((false, none), port) ∷ [])
      ≡ done (delays 0 (serious failures), some (io, port)))
    × IsConfigured socket configured (false, none) io
accept-IsConfigured_example = accept-IsConfigured socket configured failures (false, none) port []
