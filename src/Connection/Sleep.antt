-- ===== src/Connection/Sleep.antt =====
-- src/connection_handler.rs, `sleep_or_pending`. An `async fn` runs from its first poll on, so the
-- deadline is set then and not when the future is made.
use sui_http.Prelude.{ℕ, ◌+◌, Bool, false, Option, none, some, Duration, leb}

-- The future of `sleep_or_pending`: it never ends, it has not been polled, or it has a deadline.
pub data Sleep : Type 0 where
  never : Sleep
  fresh : Duration → Sleep
  armed : ℕ → Sleep

unfoldable pub sleep_or_pending : Option Duration → Sleep
sleep_or_pending (some wait) = fresh wait
sleep_or_pending none = never

-- A poll at the time `now`: whether the sleep is over, and the future afterwards.
unfoldable pub poll_sleep : ℕ → Sleep → Bool × Sleep
poll_sleep now never = (false, never)
poll_sleep now (fresh wait) = (leb (now + wait) now, armed (now + wait))
poll_sleep now (armed deadline) = (leb deadline now, armed deadline)
