-- ===== src/Server/Handle.antt =====
-- src/lib.rs, `ServerHandle::shutdown` and `wait_for_shutdown`, polled.
use sui_http.Prelude.{
  ◌≡◌, ◌⊎◌, refl, Bool, true, false, Option, [], Poll, ready, pending, inl, inr, if◌then◌else◌,
  arith,
}
use sui_http.Config.{Config}
use sui_http.Server
use sui_http.Server.{
  Server, Phase, serving, aborting, draining, forcing, stopped, crashed, is_shutdown,
  number_of_connections,
}
use sui_http.Server.Steps.{triggered, Reaches, step}
use sui_http.Server.Stopped.{stopped-IsEmpty}

module _ {A I S Certs E : Type 0} where
  -- `watch_sender.closed()`.
  unfoldable pub wait_for_shutdown : Server A I S Certs E → Poll (Unit {0})
  unfolding is_shutdown
  wait_for_shutdown s = if is_shutdown s then ready tt else pending

  -- A poll of `shutdown`, whose first poll triggers; `asked` says that there was one.
  unfoldable pub shutdown :
      Bool → Server A I S Certs E → (Poll (Unit {0}) × Bool) × Server A I S Certs E
  unfolding wait_for_shutdown
  shutdown asked s =
      let s' = if asked then s else Server.trigger_shutdown s in ((wait_for_shutdown s', true), s')

  ended_phase :
      (s : Server A I S Certs E) (ph : Phase)
      → s.phase ≡ ph
      → wait_for_shutdown s ≡ ready tt
      → (s.phase ≡ stopped) ⊎ (s.phase ≡ crashed)
  unfolding wait_for_shutdown is_shutdown
  ended_phase s serving p h = let pends = rw p at h in absurd (grind arith)
  ended_phase s aborting p h = let pends = rw p at h in absurd (grind arith)
  ended_phase s forcing p h = let pends = rw p at h in absurd (grind arith)
  ended_phase s (draining deadline) p h = let pends = rw p at h in absurd (grind arith)
  ended_phase s stopped p h = inl p
  ended_phase s crashed p h = inr p

  waited :
      (f : S → Option Certs) (config : Config) (tls : Bool) (local_addr : A)
      (s : Server A I S Certs E)
      → Reaches f (Server.start config tls local_addr) s
      → wait_for_shutdown s ≡ ready tt
      → (s.phase ≡ crashed)
        ⊎ ((s.cancelled ≡ true) × (s.connection_handlers ≡ []) × (number_of_connections s ≡ 0))
  waited f config tls local_addr s r h = elim (ended_phase s s.phase refl h) [
    | inr p ↦ inl p
    | inl p ↦
        let empty = stopped-IsEmpty f config tls local_addr s r p in inr (empty.0, empty.2, empty.3)
  ]

  -- When `shutdown` of a handle returns, whichever poll it is, and its server got there from its
  -- start: either `serve` panicked, or the server was asked to shut down, no handler is left, and
  -- nobody is connected.
  pub shutdown_outcome :
      (f : S → Option Certs) (config : Config) (tls : Bool) (local_addr : A) (asked : Bool)
      (s : Server A I S Certs E)
      → Reaches f (Server.start config tls local_addr) s
      → (shutdown asked s).0.0 ≡ ready tt
      → let t = (shutdown asked s).1 in
        (t.phase ≡ crashed)
        ⊎ ((t.cancelled ≡ true) × (t.connection_handlers ≡ []) × (number_of_connections t ≡ 0))
  unfolding shutdown
  shutdown_outcome f config tls local_addr true s r h = waited f config tls local_addr s r h
  shutdown_outcome f config tls local_addr false s r h =
      waited f config tls local_addr (Server.trigger_shutdown s) (step r (triggered refl)) h
