-- ===== src/Listener/Trait.antt =====
-- src/listener.rs, the trait `Listener`: an `accept` returns the connection, the peer's address
-- and the listener afterwards.
use sui_http.Prelude.{ℕ, zero, suc, List, [], ◌∷◌, Result}

pub record Listener : Type 1 where
  pub L : Type 0
  pub Io : Type 0
  pub Addr : Type 0
  pub Error : Type 0
  pub accept : L → (Io × Addr) × L
  pub local_addr : L → Result Addr Error

-- What `n` accepts return.
module _ (l : Listener) where
  unfoldable pub accepts : ℕ → l.L → List (l.Io × l.Addr)
  accepts zero s = []
  accepts (suc n) s = (l.accept s).0 ∷ accepts n (l.accept s).1
