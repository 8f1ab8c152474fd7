-- ===== src/Prelude/Rust.antt =====
-- Types of Rust's standard library that the source uses: `Result`, `Poll`, `Duration`.
use Prim.Native.Nat.{ℕ, ◌*◌}
use mathlib.Core.Path.{◌≡◌, refl}
use mathlib.Core.Option.{Option, none, some}
use mathlib.Core.List.{List, [], ◌∷◌}
use mathlib.Core.Logic.{◌⊎◌, inl, inr}

pub data Result {ℓ} (A E : Type ℓ) : Type ℓ where
  ok : A → Result A E
  err : E → Result A E

-- What a call does: it returns a value, or it panics.
pub data Run {ℓ} (A : Type ℓ) : Type ℓ where
  done : A → Run A
  panic : Run A

abbrev pub run_map {ℓ} : {A B : Type ℓ} → (A → B) → Run A → Run B
run_map f (done a) = done (f a)
run_map f panic = panic

-- `Option::unwrap`.
abbrev pub unwrap {ℓ} : {A : Type ℓ} → Option A → Run A
unwrap none = panic
unwrap (some a) = done a

-- `Iterator::collect` into a `Result`: the first error, or all values.
abbrev pub collect {ℓ} : {A E : Type ℓ} → List (Result A E) → Result (List A) E
collect [] = ok []
collect (err e ∷ rs) = err e
collect (ok a ∷ rs) = elim (collect rs) [ ok as' ↦ ok (a ∷ as') | err e ↦ err e ]

-- `std::task::Poll`.
pub data Poll {ℓ} (A : Type ℓ) : Type ℓ where
  ready : A → Poll A
  pending : Poll A

pub Poll-cases {ℓ} : {A : Type ℓ} (p : Poll A) → (p ≡ pending) ⊎ ((a : A) × (p ≡ ready a))
Poll-cases pending = inl refl
Poll-cases (ready a) = inr (a, refl)

-- `std::time::Duration`, in nanoseconds.
abbrev pub Duration : Type 0
Duration = ℕ

abbrev pub from_nanos : ℕ → Duration
from_nanos n = n

abbrev pub from_micros : ℕ → Duration
from_micros n = n * 1_000

abbrev pub from_millis : ℕ → Duration
from_millis n = n * 1_000_000

abbrev pub from_secs : ℕ → Duration
from_secs n = n * 1_000_000_000
