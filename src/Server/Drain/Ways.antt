-- ===== src/Server/Drain/Ways.antt =====
-- The waits for the tasks are ways of steps.
use sui_http.Prelude.{
  ℕ, suc, ◌≡◌, refl, sym, subst, ap, Result, leb, leb→le, true, Option, some, List, [], ◌∷◌,
  is_empty, Run, Bool-cases, inl, inr, arith,
}
use sui_http.Server
use sui_http.Server.{Server, Phase, serving, aborting, draining, forcing, stopped, crashed}
use sui_http.Server.Tasks.{
  Handshake, HandshakeError, spawned, handshaking, shaken, Handler, in_progress, ended, take_at,
  keep,
}
use sui_http.Server.Steps.{
  IsJoining, handler_ended, reaped, aborted, joined, drained, forced, Reaches, here, step,
}
use sui_http.Server.Drain.{
  unjoined, unreaped, abort_handshakes, abort_handlers, Event, handler_ends, wakes,
  graceful_shutdown, poll_in, poll_shutdown, happen, drain,
}

-- Tasks that are over are taken, one after another.
data Joins {R X : Type 0} (over : R → X) : List X → List X → Type 0 where
  joins_none : {hs : List X} → Joins over hs hs
  joins :
      {hs hs' hs'' : List X} (k : ℕ) (r : R)
      → take_at k hs ≡ some (over r, hs')
      → Joins over hs' hs''
      → Joins over hs hs''

Joins-cons :
    {R X : Type 0} (over : R → X) (x : X) (hs hs' : List X)
    → Joins over hs hs'
    → Joins over (x ∷ hs) (x ∷ hs')
unfolding take_at keep
Joins-cons over x hs _ joins_none = joins_none
Joins-cons over x hs hs'' (joins {hs' = hs'} k r g j) =
    joins (suc k) r (ap (keep x) g) (Joins-cons over x hs' hs'' j)

unjoined-Joins : {A Certs : Type 0} (hs : List (Handler A Certs)) → Joins ended hs (unjoined hs)
unfolding unjoined take_at
unjoined-Joins [] = joins_none
unjoined-Joins (in_progress w ∷ hs) =
    Joins-cons ended (in_progress w) hs (unjoined hs) (unjoined-Joins hs)
unjoined-Joins (ended r ∷ hs) = joins 0 r refl (unjoined-Joins hs)

abbrev shaken_of : {A I S E : Type 0} → A × Run (Result S (HandshakeError E)) → Handshake A I S E
shaken_of (remote_addr, r) = shaken remote_addr r

unreaped-Joins :
    {A I S E : Type 0} (hs : List (Handshake A I S E)) → Joins shaken_of hs (unreaped hs)
unfolding unreaped take_at
unreaped-Joins [] = joins_none
unreaped-Joins (spawned stream remote_addr timeout ∷ hs) =
    Joins-cons shaken_of (spawned stream remote_addr timeout) hs (unreaped hs) (unreaped-Joins hs)
unreaped-Joins (handshaking stream remote_addr deadline ∷ hs) =
    Joins-cons shaken_of (handshaking stream remote_addr deadline) hs (unreaped hs)
      (unreaped-Joins hs)
unreaped-Joins (shaken remote_addr r ∷ hs) = joins 0 (remote_addr, r) refl (unreaped-Joins hs)

is_empty-nil : {X : Type 0} (xs : List X) → is_empty xs ≡ true → xs ≡ []
is_empty-nil [] h = refl
is_empty-nil (x ∷ xs) h = absurd (grind arith)

module _ {A I S Certs E : Type 0} (f : S → Option Certs) where
  pub Reaches-trans : (s t u : Server A I S Certs E) → Reaches f s t → Reaches f t u → Reaches f s u
  Reaches-trans s t _ r here = r
  Reaches-trans s t u r (step r' w) = step (Reaches-trans s t _ r r') w

  joined_way :
      (s : Server A I S Certs E) (hs hs' : List (Handler A Certs))
      → IsJoining s.phase
      → Joins ended hs hs'
      → Reaches f (Server.join hs s) (Server.join hs' s)
  unfolding Server.join
  joined_way s hs _ p joins_none = here
  joined_way s hs hs'' p (joins {hs' = hs'} k r g j) =
      Reaches-trans _ (Server.join hs' s) _ (step here (joined k r hs' p g refl))
        (joined_way s hs' hs'' p j)

  reaped_way :
      (s : Server A I S Certs E) (hs hs' : List (Handshake A I S E))
      → s.phase ≡ aborting
      → Joins shaken_of hs hs'
      → Reaches f (Server.reap hs s) (Server.reap hs' s)
  unfolding Server.reap
  reaped_way s hs _ p joins_none = here
  reaped_way s hs hs'' p (joins {hs' = hs'} k r g j) =
      Reaches-trans _ (Server.reap hs' s) _ (step here (reaped k r.0 r.1 hs' p g refl))
        (reaped_way s hs' hs'' p j)

  graceful_shutdown_way :
      (deadline now : ℕ) (s : Server A I S Certs E)
      → s.phase ≡ draining deadline
      → Reaches f s (graceful_shutdown deadline now s)
  unfolding graceful_shutdown Server.join
  graceful_shutdown_way deadline now s p =
      let left = unjoined s.connection_handlers in
      let joining : IsJoining s.phase = subst IsJoining (sym p) tt in
      let way =
        joined_way s s.connection_handlers left joining (unjoined-Joins s.connection_handlers) in
      elim (Bool-cases (is_empty left)) [
        | inl e ↦ rw (e) (step way (drained joining (is_empty-nil left e) refl))
        | inr e ↦ elim (Bool-cases (leb deadline now)) [
          | inl l ↦ rw (e, l) (step way (forced deadline now p (leb→le deadline now l) refl))
          | inr l ↦ rw (e, l) way
        ]
      ]

  abort_handlers_way :
      (s : Server A I S Certs E) → IsJoining s.phase → Reaches f s (abort_handlers s)
  unfolding abort_handlers Server.join
  abort_handlers_way s joining =
      let left = unjoined s.connection_handlers in
      let way =
        joined_way s s.connection_handlers left joining (unjoined-Joins s.connection_handlers) in
      elim (Bool-cases (is_empty left)) [
        | inl e ↦ rw (e) (step way (drained joining (is_empty-nil left e) refl))
        | inr e ↦ rw (e) way
      ]

  abort_handshakes_way :
      (now : ℕ) (s : Server A I S Certs E)
      → s.phase ≡ aborting
      → Reaches f s (abort_handshakes now s)
  unfolding abort_handshakes Server.reap Server.start_grace
  abort_handshakes_way now s p =
      let left = unreaped s.pending_connections in
      let way = reaped_way s s.pending_connections left p (unreaped-Joins s.pending_connections) in
      elim (Bool-cases (is_empty left)) [
        | inl e ↦ rw (e) (
            Reaches-trans _ _ _ (step way (aborted now p (is_empty-nil left e) refl))
              (graceful_shutdown_way _ now _ refl))
        | inr e ↦ rw (e) way
      ]

  pub poll_shutdown_way :
      (now : ℕ) (s : Server A I S Certs E) (ph : Phase)
      → s.phase ≡ ph
      → Reaches f s (poll_in ph now s)
  unfolding poll_in
  poll_shutdown_way now s serving p = here
  poll_shutdown_way now s aborting p = abort_handshakes_way now s p
  poll_shutdown_way now s forcing p = abort_handlers_way s (subst IsJoining (sym p) tt)
  poll_shutdown_way now s (draining deadline) p = graceful_shutdown_way deadline now s p
  poll_shutdown_way now s stopped p = here
  poll_shutdown_way now s crashed p = here

  -- However long the server waits and whatever ends meanwhile, it takes steps of `Step`.
  pub drain_way : (es : List Event) (s : Server A I S Certs E) → Reaches f s (drain es s)
  unfolding drain happen poll_shutdown
  drain_way [] s = here
  drain_way (handler_ends id r ∷ es) s =
      Reaches-trans s _ _ (step here (handler_ended id r refl)) (drain_way es _)
  drain_way (wakes now ∷ es) s =
      Reaches-trans s _ _ (poll_shutdown_way now s s.phase refl) (drain_way es _)
