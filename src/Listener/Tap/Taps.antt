-- ===== src/Listener/Tap/Taps.antt =====
-- The closure runs once on every accepted connection, in order.
use sui_http.Prelude.{ℕ, zero, suc, ◌≡◌, refl, ap, List, [], ◌∷◌}
use sui_http.Listener.Trait.{Listener, accepts}
use sui_http.Listener.Tap.{accept, tapped, tap_io}

module _ (l : Listener) {T : Type 0} (call : T → l.Io → l.Io × T) where
  -- The closure's state threads through the list.
  abbrev pub tap_all : T → List (l.Io × l.Addr) → List (l.Io × l.Addr)
  tap_all t [] = []
  tap_all t ((io, addr) ∷ conns) = ((call t io).0, addr) ∷ tap_all (call t io).1 conns

  -- Any number of accepts returns the inner listener's connections, in order and with their
  -- addresses, each passed through the closure once.
  pub accepts-tap_io :
      (n : ℕ) (s : l.L) (t : T) → accepts (tapped l call) n (tap_io s t) ≡ tap_all t (accepts l n s)
  unfolding accept tap_io accepts
  accepts-tap_io zero s t = refl
  accepts-tap_io (suc n) s t =
      ap (◌∷◌ ((call t (l.accept s).0.0).0, (l.accept s).0.1))
        (accepts-tap_io n (l.accept s).1 (call t (l.accept s).0.0).1)
