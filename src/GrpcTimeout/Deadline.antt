-- ===== src/GrpcTimeout/Deadline.antt =====
-- src/middleware/grpc_timeout.rs from a request to its answer, with times: `call` at `now`, and poll
-- number `k` of the future that it returns at `clock k`.
use mathlib.Core.Option
use sui_http.Prelude.{
  ℕ, zero, suc, Poll-cases, inl, inr, ◌+◌, ◌≤◌, ◌<◌, ◌≡◌, refl, ap, subst, Option, none, some,
  Result, ok, done, Duration, Poll, ready, pending, arith,
}
use sui_http.Prelude.Http.{Http, Response}
use sui_http.Prelude.Polls.{poll_at, poll_until, PendingBefore}
use sui_http.GrpcTimeout.Service.{GrpcTimeout, ResponseFuture, call}
use sui_http.GrpcTimeout.Service.Shortest.{IsShortest, Shortest, Applies, call-IsShortest}
use sui_http.GrpcTimeout.Future.{map_full, timeout_response, Output, poll}
use sui_http.GrpcTimeout.Future.Race.{NotElapsedBefore, inner_answers, timer_answers}

-- `tokio::time::sleep`, called at `now`: a poll before `now` and the duration is pending, and one that
-- comes later than that by the timer's granularity finds it elapsed.
abbrev pub IsTimed :
    {Sleep : Type 0}
    → (Duration → Sleep)
    → (Sleep → Poll (Unit {0}) × Sleep)
    → ℕ
    → (ℕ → ℕ)
    → Duration
    → Type 0
IsTimed sleep poll_sleep now clock granularity =
    ((d : Duration) (k : ℕ) → clock k < now + d → poll_at poll_sleep (sleep d) k ≡ pending)
    × ((d : Duration) (k : ℕ)
        → now + d + granularity ≤ clock k
        → poll_at poll_sleep (sleep d) k ≡ ready tt)

pending_from :
    (q : ℕ → Poll (Unit {0})) (j : ℕ)
    → q 0 ≡ pending
    → ((i : ℕ) → i < j → q (suc i) ≡ pending)
    → (i : ℕ) → i < suc j
    → q i ≡ pending
pending_from q j e h zero l = e
pending_from q j e h (suc i) l = h i (omega arith)

-- The first poll that finds a result.
first_ready :
    (q : ℕ → Poll (Unit {0})) (k : ℕ)
    → q k ≡ ready tt
    → (j : ℕ) × (j ≤ k) × ((i : ℕ) → i < j → q i ≡ pending) × (q j ≡ ready tt)
first_ready q zero h = (0, omega arith, λ i l. elim l [ ], h)
first_ready q (suc k) h = elim (Poll-cases (q 0)) [
  | inr (tt, e) ↦ (0, omega arith, λ i l. elim l [ ], e)
  | inl e ↦
      let (j, l, before, there) = first_ready (λ i. q (suc i)) k h in
      (suc j, omega arith, pending_from q j e before, there)
]

Shortest-unique :
    (Given : Duration → Type 0) (d : Option Duration) (x : Duration)
    → IsShortest Given x
    → Shortest Given d
    → d ≡ some x
Shortest-unique Given none x h k = absurd (k x h.0)
Shortest-unique Given (some y) x h k = ap some (omega (arith, h.1 y k.0, k.1 x h.0))

module _ (http : Http) {S E B F Req Sleep : Type 0} (headers : Req → http.HeaderMap)
    (inner_call : S → Req → F × S) (sleep : Duration → Sleep)
    (poll_inner : F → Poll (Result (Response http.HeaderMap B) E) × F)
    (poll_sleep : Sleep → Poll (Unit {0}) × Sleep) (now : ℕ) (clock : ℕ → ℕ)
    (granularity : Duration) (timed : IsTimed sleep poll_sleep now clock granularity) where
  -- The answer, if the future that `call` returns is polled `n` times.
  abbrev pub Replies :
      GrpcTimeout S → Req → ℕ → Output http {B = B} {E = E} poll_inner poll_sleep → Type 0
  Replies g req n answer =
      (f : ResponseFuture F Sleep) × (g' : GrpcTimeout S) × (call http headers inner_call sleep g
          req
        ≡ done (f, g'))
      × (poll_until (poll http poll_inner poll_sleep) n f ≡ some answer)

  not_yet :
      (d : Option Duration) (k : ℕ)
      → ((y : Duration) → d ≡ some y → (j : ℕ) → j < k → clock j < now + y)
      → NotElapsedBefore http poll_inner poll_sleep (Option.map sleep d) k
  not_yet none k h j l = refl
  not_yet (some y) k h j l = timed.0 y j (h y refl j l)

  -- `call` comes at `now`. Where timeouts apply, the least being `x`: if the inner future is pending
  -- at every poll up to one that comes at `now + x` and the timer's granularity, or later, the answer
  -- is the deadline-exceeded response, by that poll.
  pub call-exceeds :
      (g : GrpcTimeout S) (req : Req) (x : Duration) (k n : ℕ)
      → IsShortest (Applies http headers inner_call sleep g req) x
      → k < n
      → PendingBefore poll_inner (inner_call g.inner req).0 (suc k)
      → now + x + granularity ≤ clock k
      → Replies g req n (ok (timeout_response http B))
  call-exceeds g req x k n h l before late =
      let (d, called, shortest) = call-IsShortest http headers inner_call sleep g req in
      let same = Shortest-unique _ d x h shortest in
      let called' =
        subst
          (λ o.
            call http headers inner_call sleep g req
            ≡ done (
              record { inner = (inner_call g.inner req).0; sleep = Option.map sleep o },
              record g { inner = (inner_call g.inner req).1 },
            ))
          same called in
      let (j, within, waits, elapsed) =
        first_ready (poll_at poll_sleep (sleep x)) k (timed.1 x k late) in
      (
        _,
        _,
        called',
        timer_answers http poll_inner poll_sleep j n _ (omega arith)
            (λ i l'. before i (omega arith)) waits elapsed,
      )

  -- `call` comes at `now`, and its future is polled often enough. If the inner future is first ready
  -- at a poll, and each earlier poll comes before the end of every timeout that applies, the answer
  -- is the inner one, its body wrapped.
  pub call-answers :
      (g : GrpcTimeout S) (req : Req) (r : Result (Response http.HeaderMap B) E) (k n : ℕ)
      → k < n
      → PendingBefore poll_inner (inner_call g.inner req).0 k
      → poll_at poll_inner (inner_call g.inner req).0 k ≡ ready r
      → ((y : Duration)
          → Applies http headers inner_call sleep g req y
          → (j : ℕ) → j < k
          → clock j < now + y)
      → Replies g req n (map_full r)
  call-answers g req r k n l before there early =
      let (d, called, shortest) = call-IsShortest http headers inner_call sleep g req in
      (
        _,
        _,
        called,
        inner_answers http poll_inner poll_sleep k n _ r l before there
            (not_yet d k (λ y e j l'. early y (subst (Shortest _) e shortest).0 j l')),
      )
