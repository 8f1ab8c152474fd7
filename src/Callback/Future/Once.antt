-- ===== src/Callback/Future/Once.antt =====
-- The future resolves once, and has told its handler of the outcome once.
use sui_http.Prelude.{
  ℕ, zero, suc, ◌≡◌, refl, ap, ◌∙◌, none, some, Result, Run, done, panic, Poll, Poll-cases, inl,
  inr, ready, pending, arith,
}
use sui_http.Prelude.Polls.{poll_at, PendingBefore, PendingBefore-tail, PendingBefore-suc, after}
use sui_http.Callback.Handler.{ResponseHandler}
use sui_http.Callback.Body.{ResponseBody}
use sui_http.Callback.Future.{ResponseFuture, finish, poll}

module _ {H Parts D T E S B F : Type 0} (on : ResponseHandler H Parts D T E S)
    (poll_inner : F → Poll (Result (Parts × B) S) × F) where
  poll-pending :
      (f : ResponseFuture F H)
      → (poll_inner f.inner).0 ≡ pending
      → poll on poll_inner f ≡ (pending, record f { inner = (poll_inner f.inner).1 })
  unfolding poll
  poll-pending f h = rw (h, poll) refl

  poll-ready :
      (inner : F) (handler : H) (r : Result (Parts × B) S)
      → (poll_inner inner).0 ≡ ready r
      → poll on poll_inner (record { inner = inner; handler = some handler }) ≡ (
        ready (done (finish on handler r)),
        record { inner = (poll_inner inner).1; handler = none },
      )
  unfolding poll
  poll-ready inner handler r h = rw (h, poll) refl

  -- A poll without the handler.
  abbrev pub spent :
      Poll (Result (Parts × B) S) → Poll (Run (Result (Parts × ResponseBody B H) (S × H)))
  spent (ready r) = ready panic
  spent pending = pending

  poll-spent :
      (inner : F)
      → (poll on poll_inner (record { inner = inner; handler = none })).0
        ≡ spent (poll_inner inner).0
  unfolding poll
  poll-spent inner = elim (Poll-cases (poll_inner inner).0) [
    | inl e ↦ rw (e, poll) refl
    | inr (r, e) ↦ rw (e, poll) refl
  ]

  -- If the inner future is first ready at poll `k`, with `r`, then so is this one, with the result
  -- of telling the handler of `r`; the handler is gone then, so that one more poll is
  -- pending if the inner future is, and panics if that is ready again.
  pub poll-finish_once :
      (k : ℕ) (inner : F) (handler : H) (r : Result (Parts × B) S)
      → PendingBefore poll_inner inner k
      → poll_at poll_inner inner k ≡ ready r
      → let f : ResponseFuture F H = record { inner = inner; handler = some handler } in
        PendingBefore (poll on poll_inner) f k
        × (poll_at (poll on poll_inner) f k ≡ ready (done (finish on handler r)))
        × (after (poll on poll_inner) (suc k) f
            ≡ record { inner = after poll_inner (suc k) inner; handler = none })
        × (poll_at (poll on poll_inner) f (suc k) ≡ spent (poll_at poll_inner inner (suc k)))
  poll-finish_once zero inner handler r before h =
      let e = poll-ready inner handler r h in
      (
        λ j lt. elim lt [ ],
        ap (λ q. q.0) e,
        ap (λ q. q.1) e,
        ap (λ q. (poll on poll_inner q.1).0) e ∙ poll-spent (poll_inner inner).1,
      )
  poll-finish_once (suc k) inner handler r before h =
      let f : ResponseFuture F H = record { inner = inner; handler = some handler } in
      let e = poll-pending f (before 0 (omega arith)) in
      let (ahead, result, gone, again) =
        poll-finish_once k (poll_inner inner).1 handler r (PendingBefore-tail poll_inner before)
          h in
      (
        PendingBefore-suc (poll on poll_inner) k e ahead,
        ap (λ q. poll_at (poll on poll_inner) q.1 k) e ∙ result,
        ap (λ q. after (poll on poll_inner) (suc k) q.1) e ∙ gone,
        ap (λ q. poll_at (poll on poll_inner) q.1 (suc k)) e ∙ again,
      )
