-- ===== src/Fuse/Once.antt =====
-- The fused future is ready exactly when the inner one first is.
use sui_http.Prelude.{
  ℕ, zero, suc, ◌≡◌, refl, ◌∙◌, ap, none, some, Poll, ready, pending, ◌==◌, if◌then◌else◌, arith,
}
use sui_http.Prelude.Polls.{poll_at, PendingBefore, PendingBefore-tail}
use sui_http.Fuse.{Fuse, new, poll}

module _ {A F : Type 0} (poll_inner : F → Poll A × F) where
  abbrev fused_at : Fuse F → ℕ → Poll A
  fused_at = poll_at (poll poll_inner)

  spent_pending : (j : ℕ) → fused_at (record { inner = none }) j ≡ pending
  unfolding poll
  spent_pending zero = refl
  spent_pending (suc j) = spent_pending j

  poll-pending :
      (fut : F)
      → (poll_inner fut).0 ≡ pending
      → poll poll_inner (record { inner = some fut })
        ≡ (pending, record { inner = some (poll_inner fut).1 })
  unfolding poll
  poll-pending fut h = rw (h, poll) refl

  poll-ready :
      (fut : F) (a : A)
      → (poll_inner fut).0 ≡ ready a
      → poll poll_inner (record { inner = some fut }) ≡ (ready a, record { inner = none })
  unfolding poll
  poll-ready fut a h = rw (h, poll) refl

  fused_once :
      (k : ℕ) (fut : F) (a : A) (j : ℕ)
      → PendingBefore poll_inner fut k
      → poll_at poll_inner fut k ≡ ready a
      → fused_at (record { inner = some fut }) j ≡ (if j == k then ready a else pending)
  fused_once zero fut a zero before h = ap (λ q. q.0) (poll-ready fut a h)
  fused_once zero fut a (suc j) before h =
      ap (λ q. fused_at q.1 j) (poll-ready fut a h) ∙ spent_pending j ∙ ground arith
  fused_once (suc k) fut a zero before h =
      ap (λ q. q.0) (poll-pending fut (before 0 (omega arith))) ∙ ground arith
  fused_once (suc k) fut a (suc j) before h =
      ap (λ q. fused_at q.1 j) (poll-pending fut (before 0 (omega arith)))
      ∙ fused_once k (poll_inner fut).1 a j (PendingBefore-tail poll_inner before) h
      ∙ ground arith

  -- If the inner future is first ready at poll `k`, the fused one is ready with that output at
  -- poll `k`, and pending at every other poll, earlier or later.
  pub new-poll_once :
      (fut : F) (k : ℕ) (a : A)
      → PendingBefore poll_inner fut k
      → poll_at poll_inner fut k ≡ ready a
      → (j : ℕ) → poll_at (poll poll_inner) (new fut) j ≡ (if j == k then ready a else pending)
  unfolding new
  new-poll_once fut k a before h j = fused_once k fut a j before h
