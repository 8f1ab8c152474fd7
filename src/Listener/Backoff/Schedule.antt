-- ===== src/Listener/Backoff/Schedule.antt =====
-- How long the retry loop sleeps.
use native.Mathlib.Nat.{pow-succ', one-le-pow}
use sui_http.Prelude.{
  ℕ, zero, suc, ◌*◌, ◌^◌, ◌≤◌, ◌≡◌, refl, ap, ◌∙◌, inl, inr, true, false, Option, some, List, [],
  ◌∷◌, ◌++◌, map, Result, ok, err, done, Duration, min, All, Bool-cases, if◌then◌else◌, arith,
}
use sui_http.Listener.Backoff.{
  ErrorKind, is_connection_error, min_delay, max_delay, AcceptBackoff, new, mul_duration,
  min_duration, handle_accept_error, slept_before, accept_loop, accept,
}

-- The delay after `k` errors that count: 5 ms doubled `k` times, one second at most.
unfoldable pub delay : ℕ → Duration
delay k = min (min_delay * 2 ^ k) max_delay

abbrev pub delays : ℕ → ℕ → List Duration
delays k zero = []
delays k (suc n) = delay k ∷ delays (suc k) n

-- The errors that are not the connection's own.
abbrev pub serious : List ErrorKind → ℕ
serious [] = 0
serious (e ∷ es) = if is_connection_error e then serious es else suc (serious es)

abbrev at_delay : ℕ → AcceptBackoff
at_delay k = record { next_delay = delay k }

delay_next : (k : ℕ) → min_duration (delay k * 2) max_delay ≡ delay (suc k)
unfolding delay min_duration
delay_next k = rw (pow-succ' 2 k) (ground arith)

pub delay_bounds : (k : ℕ) → (min_delay ≤ delay k) × (delay k ≤ max_delay)
unfolding delay
delay_bounds k = omega (arith, one-le-pow k 2 (omega arith))

handle_serious :
    (k : ℕ) (e : ErrorKind)
    → is_connection_error e ≡ false
    → handle_accept_error (at_delay k) e ≡ done (delay k ∷ [], at_delay (suc k))
unfolding handle_accept_error mul_duration
handle_serious k e h = ground (arith, delay_next k, delay_bounds k)

handle_connection_error :
    (b : AcceptBackoff) (e : ErrorKind)
    → is_connection_error e ≡ true
    → handle_accept_error b e ≡ done ([], b)
unfolding handle_accept_error
handle_connection_error b e h = rw h refl

module _ {C : Type 0} where
  slept_done :
      (d : Duration) (ds : List Duration) (c : Option C)
      → slept_before (d ∷ []) (done (ds, c)) ≡ done (d ∷ ds, c)
  slept_done d ds c = refl

  loop_schedule :
      (k : ℕ) (es : List ErrorKind) (c : C) (later : List (Result C ErrorKind))
      → accept_loop (at_delay k) (map err es ++ ok c ∷ later) ≡ done (delays k (serious es), some c)
  unfolding accept_loop
  loop_schedule k [] c later = refl
  loop_schedule k (e ∷ es) c later = elim (Bool-cases (is_connection_error e)) [
    | inl h ↦
        rw (handle_connection_error (at_delay k) e h, accept_loop)
          (loop_schedule k es c later ∙ rw h refl)
    | inr h ↦
        rw (handle_serious k e h, accept_loop)
          (ap (slept_before (delay k ∷ [])) (loop_schedule (suc k) es c later) ∙ rw h refl)
  ]

  -- The loop returns the first connection that the system accepts, whatever errors come before,
  -- and never panics. It has slept once for each error that is not the connection's own, the
  -- `k`-th time (from 0) for 5 ms doubled `k` times, and at most one second.
  pub accept-delays :
      (es : List ErrorKind) (c : C) (later : List (Result C ErrorKind))
      → accept (map err es ++ ok c ∷ later) ≡ done (delays 0 (serious es), some c)
  unfolding accept new delay
  accept-delays es c later = loop_schedule 0 es c later

pub delays_bounds : (n k : ℕ) → All (λ d. (min_delay ≤ d) × (d ≤ max_delay)) (delays k n)
delays_bounds zero k = tt
delays_bounds (suc n) k = (delay_bounds k, delays_bounds n (suc k))
