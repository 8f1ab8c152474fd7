-- ===== src/Listener/Tap.antt =====
-- src/listener.rs, `TapIo`. The closure is a function on its captured state and the connection.
pub mod Taps
use sui_http.Prelude.{ℕ}
use sui_http.Listener.Trait.{Listener}

pub record TapIo (L T : Type 0) : Type 0 where
  pub listener : L
  pub tap_fn : T

module _ (l : Listener) {T : Type 0} (call : T → l.Io → l.Io × T) where
  unfoldable pub accept : TapIo l.L T → (l.Io × l.Addr) × TapIo l.L T
  accept t =
      let ((io, addr), listener') = l.accept t.listener in
      let (io', tap_fn') = call t.tap_fn io in
      ((io', addr), record { listener = listener'; tap_fn = tap_fn' })

  -- `impl Listener for TapIo`.
  abbrev pub tapped : Listener
  tapped = record {
    L = TapIo l.L T;
    Io = l.Io;
    Addr = l.Addr;
    Error = l.Error;
    accept = accept;
    local_addr = λ t. l.local_addr t.listener;
  }

-- `ListenerExt::tap_io`.
unfoldable pub tap_io : {L T : Type 0} → L → T → TapIo L T
tap_io listener tap_fn = record { listener = listener; tap_fn = tap_fn }
