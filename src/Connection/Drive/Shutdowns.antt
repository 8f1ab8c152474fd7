-- ===== src/Connection/Drive/Shutdowns.antt =====
-- How often `graceful_shutdown` is called on the connection.
use sui_http.Prelude.{ℕ, ◌≤◌, ◌≡◌, true, false, Option, List, Duration, arith, All-of_each}
use sui_http.Fuse.{new}
use sui_http.Connection.Drive.{Wake, Drive, Turn, start, drive_connection, wake_up}
use sui_http.Connection.Drive.Turns.{
  same, polled, unspent, Selected, signalled, signalled_late, resolved, aged, expired, nothing,
}
use sui_http.Connection.Drive.Rounds.{Post, Ends, wake_up_rule, drive_rule}

-- The calls so far: none before the grace period; one or two in it, and two only if the signal
-- has been used up.
pub record Counted (d : Drive) : Type 0 where
  pub none_before : d.in_grace_period ≡ false → (d.shutdowns ≡ 0) × (d.sig ≡ unspent)
  pub some_within : d.in_grace_period ≡ true → 1 ≤ d.shutdowns
  pub twice_at_most : d.shutdowns ≤ 2
  pub once_unspent : d.sig ≡ unspent → d.shutdowns ≤ 1

module _ {E : Type 0} (grace : Option Duration) where
  select-Counted :
      (w : Wake E) (i : ℕ) (d : Drive) (t : Turn E)
      → Counted d
      → Selected grace w (w.conn i) d t
      → Post Counted Counted (λ d _. Counted d) t
  select-Counted w i d t c (signalled e same h k) = ground arith
  select-Counted w i d t c (signalled e polled h k) = ground arith
  select-Counted w i d t c (signalled_late e same h k) = ground arith
  select-Counted w i d t c (signalled_late e polled h k) = ground arith
  select-Counted w i d t c (resolved e rv same h k) = ground arith
  select-Counted w i d t c (resolved e rv polled h k) = ground arith
  select-Counted w i d t c (aged h g k) = ground arith
  select-Counted w i d t c (expired h g k) = ground arith
  select-Counted w i d t c (nothing h q o k) = ground arith

  wake_up-Counted :
      (w : Wake E) (d : Drive) → Counted d → Ends Counted (λ d _. Counted d) (wake_up grace w d)
  wake_up-Counted w d c =
      wake_up_rule grace w Counted Counted (λ d _. Counted d) (select-Counted w) d c

  -- However the connection's life goes, `graceful_shutdown` is called at most twice, at least once
  -- if the grace period has begun, and never before; the loop ends within each wake-up.
  pub drive_connection-Counted :
      (age : Option Duration) (ws : List (Wake E))
      → Ends Counted (λ d _. Counted d) (drive_connection grace age ws)
  unfolding drive_connection start new
  drive_connection-Counted age ws =
      drive_rule grace Counted (λ d _. Counted d) (λ _. Unit {0}) (λ w d _. wake_up-Counted w d) ws
        (start age) (All-of_each (λ _. Unit {0}) ws (λ _. tt)) (ground arith)
