-- ===== src/Fuse.antt =====
-- src/fuse.rs: a future that is ready once, and pending ever after.
pub mod Once
use sui_http.Prelude.{Option, none, some, Poll, ready, pending}

pub record Fuse (F : Type 0) : Type 0 where
  pub inner : Option F

unfoldable pub new : {F : Type 0} → F → Fuse F
new future = record { inner = some future }

module _ {A F : Type 0} (poll_inner : F → Poll A × F) where
  unfoldable pub poll : Fuse F → Poll A × Fuse F
  poll f = elim f.inner [
    | some fut ↦
        let (output, fut') = poll_inner fut in
        elim output [
          | ready a ↦ (ready a, record { inner = none })
          | pending ↦ (pending, record { inner = some fut' })
        ]
    | none ↦ (pending, f)
  ]
