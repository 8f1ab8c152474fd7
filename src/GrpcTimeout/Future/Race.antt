-- ===== src/GrpcTimeout/Future/Race.antt =====
-- Who answers: the inner future, or the timer.
use sui_http.Prelude.{
  ℕ, zero, suc, ◌<◌, ◌≡◌, refl, ◌∙◌, Option, none, some, Result, ok, Poll, ready, pending, arith,
}
use sui_http.Prelude.Http.{Http, Response}
use sui_http.Prelude.Polls.{
  poll_at, poll_until, poll_until_ready, poll_until_pending, PendingBefore, PendingBefore-tail,
}
use sui_http.GrpcTimeout.Service.{ResponseFuture}
use sui_http.GrpcTimeout.Future.{map_full, timeout_response, Output, poll_timer, poll}

module _ (http : Http) {B E F Sleep : Type 0}
    (poll_inner : F → Poll (Result (Response http.HeaderMap B) E) × F)
    (poll_sleep : Sleep → Poll (Unit {0}) × Sleep) where
  -- What poll number `k` of the timer would return; without a timer nothing elapses.
  abbrev pub elapsed_at : Option Sleep → ℕ → Poll (Unit {0})
  elapsed_at none k = pending
  elapsed_at (some s) k = poll_at poll_sleep s k

  abbrev pub NotElapsedBefore : Option Sleep → ℕ → Type 0
  NotElapsedBefore sleep k = (j : ℕ) → j < k → elapsed_at sleep j ≡ pending

  abbrev next_timer : Option Sleep → Option Sleep
  next_timer none = none
  next_timer (some s) = some (poll_sleep s).1

  NotElapsedBefore-tail :
      (sleep : Option Sleep) {k : ℕ}
      → NotElapsedBefore sleep (suc k)
      → NotElapsedBefore (next_timer sleep) k
  NotElapsedBefore-tail none h j lt = refl
  NotElapsedBefore-tail (some s) h j lt = h (suc j) (omega arith)

  abbrev next : ResponseFuture F Sleep → ResponseFuture F Sleep
  next f = record { inner = (poll_inner f.inner).1; sleep = next_timer f.sleep }

  poll_both_pending :
      (sleep : Option Sleep) (inner : F)
      → (poll_inner inner).0 ≡ pending
      → elapsed_at sleep zero ≡ pending
      → let f : ResponseFuture F Sleep = record { inner = inner; sleep = sleep } in
        poll http poll_inner poll_sleep f ≡ (pending, next f)
  unfolding poll poll_timer
  poll_both_pending none inner h t = rw (h, poll, poll_timer) refl
  poll_both_pending (some s) inner h t = rw (h, poll, poll_timer, t) refl

  poll_ready :
      (f : ResponseFuture F Sleep) (r : Result (Response http.HeaderMap B) E)
      → (poll_inner f.inner).0 ≡ ready r
      → (poll http poll_inner poll_sleep f).0 ≡ ready (map_full r)
  unfolding poll
  poll_ready f r h = rw (h, poll) refl

  poll_elapsed :
      (sleep : Option Sleep) (inner : F)
      → (poll_inner inner).0 ≡ pending
      → elapsed_at sleep zero ≡ ready tt
      → let f : ResponseFuture F Sleep = record { inner = inner; sleep = sleep } in
        (poll http poll_inner poll_sleep f).0 ≡ ready (ok (timeout_response http B))
  unfolding poll poll_timer
  poll_elapsed none inner h t = cc
  poll_elapsed (some s) inner h t = rw (h, poll, poll_timer, t) refl

  abbrev run :
      ℕ → ResponseFuture F Sleep → Option (Output http {B = B} {E = E} poll_inner poll_sleep)
  run = poll_until (poll http poll_inner poll_sleep)

  run_pending :
      (n : ℕ) (f : ResponseFuture F Sleep)
      → (poll_inner f.inner).0 ≡ pending
      → elapsed_at f.sleep zero ≡ pending
      → run (suc n) f ≡ run n (next f)
  run_pending n f h t = poll_until_pending _ n f (poll_both_pending f.sleep f.inner h t)

  -- If the inner future is ready at poll `k` and the timer has not elapsed at an earlier poll, the
  -- inner result is the answer, whether or not the timer has elapsed by then.
  pub inner_answers :
      (k n : ℕ) (f : ResponseFuture F Sleep) (r : Result (Response http.HeaderMap B) E)
      → k < n
      → PendingBefore poll_inner f.inner k
      → poll_at poll_inner f.inner k ≡ ready r
      → NotElapsedBefore f.sleep k
      → run n f ≡ some (map_full r)
  inner_answers k zero f r lt before h timer = elim lt [ ]
  inner_answers zero (suc n) f r lt before h timer = poll_until_ready _ n f (poll_ready f r h)
  inner_answers (suc k) (suc n) f r lt before h timer =
      run_pending n f (before 0 (omega arith)) (timer 0 (omega arith))
      ∙ inner_answers k n (next f) r (omega arith) (PendingBefore-tail poll_inner before) h
          (NotElapsedBefore-tail f.sleep timer)

  elapsed_at-next :
      (sleep : Option Sleep) (k : ℕ) → elapsed_at (next_timer sleep) k ≡ elapsed_at sleep (suc k)
  elapsed_at-next none k = refl
  elapsed_at-next (some s) k = refl

  -- If the timer elapses at poll `k`, before which and at which the inner future is pending, the
  -- answer is the deadline-exceeded response.
  pub timer_answers :
      (k n : ℕ) (f : ResponseFuture F Sleep)
      → k < n
      → PendingBefore poll_inner f.inner (suc k)
      → NotElapsedBefore f.sleep k
      → elapsed_at f.sleep k ≡ ready tt
      → run n f ≡ some (ok (timeout_response http B))
  timer_answers k zero f lt before timer h = elim lt [ ]
  timer_answers zero (suc n) f lt before timer h =
      poll_until_ready _ n f (poll_elapsed f.sleep f.inner (before 0 (omega arith)) h)
  timer_answers (suc k) (suc n) f lt before timer h =
      run_pending n f (before 0 (omega arith)) (timer 0 (omega arith))
      ∙ timer_answers k n (next f) (omega arith) (PendingBefore-tail poll_inner before)
          (NotElapsedBefore-tail f.sleep timer) (elapsed_at-next f.sleep k ∙ h)
