-- ===== src/Server/Loop/Covers.antt =====
-- A branch of the loop is a step, or changes nothing.
use sui_http.Prelude.{
  ℕ, ◌≡◌, ◌⊎◌, refl, Option, none, some, List, done, panic, Bool-cases, inl, inr,
}
use sui_http.Connection.Info.{ConnectionId}
use sui_http.Connection.Registry.{keys, Absent}
use sui_http.Server.{Server, serving}
use sui_http.Server.Tasks.{
  Handshake, spawned, handshaking, shaken, Handler, in_progress, ended, take_at,
}
use sui_http.Server.Steps.{
  Step, accepted, handshake_joined, handshake_panicked, handler_joined, shut_down,
}
use sui_http.Server.Loop.{
  Branch, token_cancelled, accept, join_pending, join_handler, selects, on_pending, on_joined,
  select, IsFresh,
}

module _ {A I S Certs E : Type 0} (f : S → Option Certs) where
  -- A step, or none.
  abbrev pub StepsOrStays : Server A I S Certs E → Server A I S Certs E → Type 0
  StepsOrStays s t = Step f s t ⊎ (t ≡ s)

  module _ (s : Server A I S Certs E) (p : s.phase ≡ serving) where
    on_pending-steps :
        (id : ConnectionId) (now k : ℕ) (o : Option (Handshake A I S E × List (Handshake A I S E)))
        → take_at k s.pending_connections ≡ o
        → Absent id (keys s.connections)
        → StepsOrStays s (on_pending f id now o s)
    unfolding on_pending
    on_pending-steps id now k none g fresh = inr refl
    on_pending-steps id now k (some (spawned stream remote_addr timeout, rest)) g fresh = inr refl
    on_pending-steps id now k (some (handshaking stream remote_addr deadline, rest)) g fresh =
        inr refl
    on_pending-steps id now k (some (shaken remote_addr (done r), rest)) g fresh =
        inl (handshake_joined id now k remote_addr r rest p g fresh refl)
    on_pending-steps id now k (some (shaken remote_addr panic, rest)) g fresh =
        inl (handshake_panicked k remote_addr rest p g refl)

    on_joined-steps :
        (k : ℕ) (o : Option (Handler A Certs × List (Handler A Certs)))
        → take_at k s.connection_handlers ≡ o
        → StepsOrStays s (on_joined f o s)
    unfolding on_joined
    on_joined-steps k none g = inr refl
    on_joined-steps k (some (in_progress w, rest)) g = inr refl
    on_joined-steps k (some (ended r, rest)) g = inl (handler_joined k r rest p g refl)

    pub select-steps :
        (b : Branch A I) → IsFresh {E = E} (selects b) s → StepsOrStays s (select f b s)
    unfolding select
    select-steps token_cancelled fresh = elim (Bool-cases s.cancelled) [
      | inl e ↦ inl (shut_down p e (rw e))
      | inr e ↦ inr (rw e)
    ]
    select-steps (accept id now stream remote_addr) fresh =
        inl (accepted id now stream remote_addr p fresh refl)
    select-steps (join_pending id now k) fresh =
        on_pending-steps id now k (take_at k s.pending_connections) refl fresh
    select-steps (join_handler k) fresh = on_joined-steps k (take_at k s.connection_handlers) refl
