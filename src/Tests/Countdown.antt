-- ===== src/Tests/Countdown.antt =====
-- A future that is ready after as many polls as its state says.
use sui_http.Prelude.{ℕ, zero, suc, ◌<◌, ◌≡◌, refl, Poll, ready, pending, arith}
use sui_http.Prelude.Polls.{poll_at}

abbrev pub countdown : {A : Type 0} → A → ℕ → Poll A × ℕ
countdown a zero = (ready a, zero)
countdown a (suc n) = (pending, n)

pub countdown-pending : {A : Type 0} (a : A) (n j : ℕ) → j < n → poll_at (countdown a) n j ≡ pending
countdown-pending a zero j lt = elim lt [ ]
countdown-pending a (suc n) zero lt = refl
countdown-pending a (suc n) (suc j) lt = countdown-pending a n j (omega arith)
