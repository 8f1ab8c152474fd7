-- ===== src/Listener/Tcp.antt =====
-- src/listener.rs, `TcpListenerWithOptions`. Sockets are a parameter: the calls that set an option
-- may fail, and the options can be read back.
pub mod Options
use sui_http.Prelude.{
  run_map, ◌≡◌, Bool, true, Option, none, some, List, Result, ok, err, Run, done, panic, Duration,
  if◌then◌else◌,
}
use sui_http.Listener.Backoff.{ErrorKind}
use sui_http.Listener.Backoff

-- A call that sets one option leaves the other alone, and a call that fails leaves both alone.
pub record Socket : Type 1 where
  pub Stream : Type 0
  pub Error : Type 0
  pub nodelay : Stream → Bool
  pub keepalive : Stream → Option Duration
  pub set_nodelay : Stream → Bool → Result (Unit {0}) Error × Stream
  pub set_tcp_keepalive : Stream → Duration → Result (Unit {0}) Error × Stream
  pub set_nodelay_keepalive : (s : Stream) (b : Bool) → keepalive (set_nodelay s b).1 ≡ keepalive s
  pub set_nodelay_ok :
      (s : Stream) (b : Bool) → (set_nodelay s b).0 ≡ ok tt → nodelay (set_nodelay s b).1 ≡ b
  pub set_tcp_keepalive_nodelay :
      (s : Stream) (d : Duration) → nodelay (set_tcp_keepalive s d).1 ≡ nodelay s
  pub set_tcp_keepalive_ok :
      (s : Stream) (d : Duration)
      → (set_tcp_keepalive s d).0 ≡ ok tt
      → keepalive (set_tcp_keepalive s d).1 ≡ some d

pub record TcpListenerWithOptions (L : Type 0) : Type 0 where
  pub inner : L
  pub nodelay : Bool
  pub keepalive : Option Duration

unfoldable pub from_listener : {L : Type 0} → L → Bool → Option Duration → TcpListenerWithOptions L
from_listener listener nodelay keepalive = record {
  inner = listener;
  nodelay = nodelay;
  keepalive = keepalive;
}

infixl 5 ◌>>=◌
abbrev pub ◌>>=◌ : {A B E : Type 0} → Result A E → (A → Result B E) → Result B E
ok a >>= k = k a
err e >>= k = err e

-- `TcpListenerWithOptions::new`: binding, `set_nonblocking` and `from_std` may fail.
module _ {Addr Std L E : Type 0} (bind : Addr → Result Std E)
    (set_nonblocking : Std → Bool → Result Std E) (from_std : Std → Result L E) where
  unfoldable pub new : Addr → Bool → Option Duration → Result (TcpListenerWithOptions L) E
  new addr nodelay keepalive = do
    std_listener ← bind addr
    std_listener' ← set_nonblocking std_listener true
    listener ← from_std std_listener'
    ok (from_listener listener nodelay keepalive)

module _ (socket : Socket) {L : Type 0} where
  -- Errors are logged and ignored.
  unfoldable pub apply_keepalive : TcpListenerWithOptions L → socket.Stream → socket.Stream
  apply_keepalive l stream = elim l.keepalive [
    | none ↦ stream
    | some timeout ↦ (socket.set_tcp_keepalive stream timeout).1
  ]

  unfoldable pub set_accepted_socket_options :
      TcpListenerWithOptions L → socket.Stream → socket.Stream
  set_accepted_socket_options l stream =
      apply_keepalive l (if l.nodelay then (socket.set_nodelay stream true).1 else stream)

  module _ {Addr : Type 0} where
    abbrev pub with_options :
        TcpListenerWithOptions L
        → List Duration × Option (socket.Stream × Addr)
        → List Duration × Option (socket.Stream × Addr)
    with_options l (slept, none) = (slept, none)
    with_options l (slept, some (io, addr)) = (slept, some (set_accepted_socket_options l io, addr))

    -- The accept loop of the inner listener, then the options of the connection.
    unfoldable pub accept :
        TcpListenerWithOptions L
        → List (Result (socket.Stream × Addr) ErrorKind)
        → Run (List Duration × Option (socket.Stream × Addr))
    accept l attempts = run_map (with_options l) (Backoff.accept attempts)

-- Its `local_addr`, that of the listener inside.
unfoldable pub local_addr :
    {L A E : Type 0} → (L → Result A E) → TcpListenerWithOptions L → Result A E
local_addr inner_local_addr t = inner_local_addr t.inner
