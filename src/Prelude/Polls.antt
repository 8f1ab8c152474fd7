-- ===== src/Prelude/Polls.antt =====
-- A future polled again and again: `p s` is the result of a poll and the future afterwards.
use Prim.Native.Nat.{ℕ, zero, suc, ◌<◌}
use mathlib.Core.Path.{◌≡◌, refl, sym, ap, ◌∙◌}
use mathlib.Core.Option.{Option, none, some, some-injective}
use mathlib.Core.List.{List, [], ◌∷◌}
use native.Mathlib.Omega.{arith}
use mathlib.Core.Logic.{inl, inr}
use sui_http.Prelude.Rust.{Poll, ready, pending, Poll-cases}

module _ {A S : Type 0} (p : S → Poll A × S) where
  -- The result of the poll number `k`, from 0, if polled each time.
  abbrev pub poll_at : S → ℕ → Poll A
  poll_at s zero = (p s).0
  poll_at s (suc k) = poll_at (p s).1 k

  -- The first result within `n` polls, as a runtime drives a future that is woken `n` times.
  pub poll_until : ℕ → S → Option A
  poll_until zero s = none
  poll_until (suc n) s =
      let rest = poll_until n (p s).1 in elim (p s).0 [ ready a ↦ some a | pending ↦ rest ]

  abbrev pub PendingBefore : S → ℕ → Type 0
  PendingBefore s k = (j : ℕ) → j < k → poll_at s j ≡ pending

  pub PendingBefore-tail : {s : S} {k : ℕ} → PendingBefore s (suc k) → PendingBefore (p s).1 k
  PendingBefore-tail h j lt = h (suc j) (omega arith)

  pub poll_until_ready : (n : ℕ) (s : S) {a : A} → (p s).0 ≡ ready a → poll_until (suc n) s ≡ some a
  unfolding poll_until
  poll_until_ready n s h = rw (h, poll_until) refl

  pub poll_until_pending :
      (n : ℕ) (s : S) {t : S} → p s ≡ (pending, t) → poll_until (suc n) s ≡ poll_until n t
  unfolding poll_until
  poll_until_pending n s h = rw (ap (λ q. q.0) h, poll_until) (ap (λ q. poll_until n q.1) h)

  -- The results of `n` polls, and the future after them.
  abbrev pub results : ℕ → S → List (Poll A)
  results zero s = []
  results (suc n) s = (p s).0 ∷ results n (p s).1

  abbrev pub after : ℕ → S → S
  after zero s = s
  after (suc n) s = after n (p s).1

  pub PendingBefore-suc :
      {s t : S} (k : ℕ) → p s ≡ (pending, t) → PendingBefore t k → PendingBefore s (suc k)
  PendingBefore-suc k e h zero lt = ap (λ q. q.0) e
  PendingBefore-suc k e h (suc j) lt = ap (λ q. poll_at q.1 j) e ∙ h j (omega arith)

  -- The poll that gives the first result.
  pub poll_until-first :
      (n : ℕ) (s : S) {a : A}
      → poll_until n s ≡ some a
      → (k : ℕ) × (k < n) × PendingBefore s k × (poll_at s k ≡ ready a)
  unfolding poll_until
  poll_until-first zero s e = absurd (ground arith)
  poll_until-first (suc n) s {a} e = elim (Poll-cases (p s).0) [
    | inr (b, h) ↦
        let same = some-injective b a (sym (poll_until_ready n s h) ∙ e) in
        (0, omega arith, (λ j l. elim l [ ]), h ∙ ap ready same)
    | inl h ↦
        let next : p s ≡ (pending, (p s).1) = ap (λ q. (q, (p s).1)) h in
        let (k, l, before, there) =
          poll_until-first n (p s).1 (sym (poll_until_pending n s next) ∙ e) in
        (suc k, omega arith, PendingBefore-suc k next before, there)
  ]
