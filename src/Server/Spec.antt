-- ===== src/Server/Spec.antt =====
-- What a server promises of its connections, without its tasks: who is connected, and how far it
-- is on its way to its end.
pub mod Refines
pub mod Shrinks
use sui_http.Prelude.{◌≡◌, Bool, true, Option, none, some, List, [], ◌∷◌, ◌==◌, if◌then◌else◌}
use sui_http.Connection.Info.{ConnectionId}
use sui_http.Connection.Registry.{lookup}
use sui_http.Server.{Server, Phase, serving, aborting, draining, forcing, stopped, crashed}
use sui_http.Server.Steps.{
  Step, triggered, closed, accepted, shook, handshake_joined, handshake_panicked, handler_ended,
  handler_joined, shut_down, reaped, aborted, joined, drained, forced, Reaches, here, step,
}
use sui_http.Server.Tracked.Entries.{entries}

pub data Life : Type 0 where
  running closing over failed : Life

-- Who is connected under an id, by address and certificates.
pub record View (A Certs : Type 0) : Type 0 where
  pub connected : ConnectionId → Option (A × Option Certs)
  pub asked : Bool
  pub life : Life

pub record Agrees {A Certs : Type 0} (connected : ConnectionId → Option (A × Option Certs))
    (asked : Bool) (life : Life) (w : View A Certs) : Type 0 where
  pub same_connected : (j : ConnectionId) → w.connected j ≡ connected j
  pub same_asked : w.asked ≡ asked
  pub same_life : w.life ≡ life

-- What a change is for: a call of a handle, a new connection under an id, the end of a handler, or
-- anything else that the server does.
pub data Label : Type 0 where
  triggers : Label
  asks_one arrives handler_ends : ConnectionId → Label
  proceeds : Label

-- One change, from `v` to `w`. A connection goes only at the end of its own handler, and a call of
-- a handle changes who is connected in nothing; connections open only before the shutdown, under an
-- id that is free; the shutdown begins only when it was asked for, and is over only when nobody is
-- connected.
pub data Change {A Certs : Type 0} (v w : View A Certs) : Label → Type 0 where
  asks : Agrees v.connected true v.life w → Change v w triggers
  told : (id : ConnectionId) → Agrees v.connected v.asked v.life w → Change v w (asks_one id)
  declines : (id : ConnectionId) → Agrees v.connected v.asked v.life w → Change v w (arrives id)
  opens :
      (id : ConnectionId) (address : A) (certs : Option Certs)
      → v.life ≡ running
      → v.connected id ≡ none
      → Agrees (λ j. if id == j then some (address, certs) else v.connected j) v.asked v.life w
      → Change v w (arrives id)
  goes :
      (id : ConnectionId)
      → Agrees (λ j. if id == j then none else v.connected j) v.asked v.life w
      → Change v w (handler_ends id)
  stays : Agrees v.connected v.asked v.life w → Change v w proceeds
  shuts :
      v.life ≡ running → v.asked ≡ true → Agrees v.connected true closing w → Change v w proceeds
  ends :
      v.life ≡ closing
      → ((j : ConnectionId) → v.connected j ≡ none)
      → Agrees v.connected v.asked over w
      → Change v w proceeds
  crashes : v.life ≡ running → Agrees v.connected v.asked failed w → Change v w proceeds

-- One change after another, with the label of each, the last one first.
pub data Changes {A Certs : Type 0} (v : View A Certs) : List Label → View A Certs → Type 0 where
  none_yet : Changes v [] v
  more :
      {w x : View A Certs} {l : Label} {ls : List Label}
      → Changes v ls w
      → Change w x l
      → Changes v (l ∷ ls) x

module _ {A I S Certs E : Type 0} {f : S → Option Certs} where
  abbrev pub label_of : {s t : Server A I S Certs E} → Step f s t → Label
  label_of (triggered q) = triggers
  label_of (closed id q) = asks_one id
  label_of (accepted id now stream remote_addr p fresh q) = arrives id
  label_of (shook k now p q) = proceeds
  label_of (handshake_joined id now k remote_addr r rest p g fresh q) = arrives id
  label_of (handshake_panicked k remote_addr rest p g q) = proceeds
  label_of (handler_ended id r q) = handler_ends id
  label_of (handler_joined k r rest p g q) = proceeds
  label_of (shut_down p c q) = proceeds
  label_of (reaped k remote_addr r rest p g q) = proceeds
  label_of (aborted now p g q) = proceeds
  label_of (joined k r rest p g q) = proceeds
  label_of (drained p g q) = proceeds
  label_of (forced deadline now p l q) = proceeds

  -- What happened on the way, the last step first.
  abbrev pub labels : {s t : Server A I S Certs E} → Reaches f s t → List Label
  labels here = []
  labels (step r w) = label_of w ∷ labels r

abbrev pub life_of : Phase → Life
life_of serving = running
life_of aborting = closing
life_of forcing = closing
life_of (draining deadline) = closing
life_of stopped = over
life_of crashed = failed

-- The view of a server: its handle's connections, whether it was asked to shut down, its phase.
abbrev pub view : {A I S Certs E : Type 0} → Server A I S Certs E → View A Certs
view s = record {
  connected = λ j. lookup j (entries s.connections);
  asked = s.cancelled;
  life = life_of s.phase;
}
