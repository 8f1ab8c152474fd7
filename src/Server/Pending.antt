-- ===== src/Server/Pending.antt =====
-- src/lib.rs: the bound on the TLS handshakes in progress.
use sui_http.Prelude.{
  ℕ, zero, suc, ◌≤◌, ◌≡◌, refl, sym, ap, ◌∙◌, subst, Bool, true, Option, some, List, [], ◌∷◌,
  length, Run, done, panic, Result, ok, err, arith, Option-cases, inl, inr, if◌then◌else◌,
}
use sui_http.Connection.Info.{ConnectionId}
use sui_http.Config.{Config}
use sui_http.Server
use sui_http.Server.{Server}
use sui_http.Server.Tasks.{Handshake, HandshakeError, Handler, take_at, keep, update_at}
use sui_http.Server.Incoming.{dropped, shakes, served, handle_incomming-Incoming}
use sui_http.Server.Steps.{
  Step, triggered, closed, accepted, shook, handshake_joined, handshake_panicked, handler_ended,
  handler_joined, shut_down, reaped, aborted, joined, drained, forced, Reaches, reaches_rule,
}

length-update_at :
    {X : Type 0} (f : X → X) (k : ℕ) (xs : List X) → length (update_at f k xs) ≡ length xs
unfolding update_at
length-update_at f k [] = refl
length-update_at f zero (x ∷ xs) = refl
length-update_at f (suc k) (x ∷ xs) = omega (arith, length-update_at f k xs)

length-take_at :
    {X : Type 0} (k : ℕ) (x : X) (xs rest : List X)
    → take_at k xs ≡ some (x, rest)
    → length rest ≤ length xs
unfolding take_at keep
length-take_at k x [] rest h = grind arith
length-take_at zero x (y ∷ xs) rest h = grind arith
length-take_at (suc k) x (y ∷ xs) rest h = elim (Option-cases (take_at k xs)) [
  | inl e ↦ grind arith
  | inr ((z, zs), e) ↦ grind (arith, length-take_at k x xs zs)
]

-- As many handshakes as may be pending.
unfoldable pub limit : Config → Bool → ℕ
limit config tls = if tls then config.max_pending_connections else 0

limit-tls :
    (config : Config) (tls : Bool) → tls ≡ true → limit config tls ≡ config.max_pending_connections
unfolding limit
limit-tls config tls e = rw e

module _ {A I S Certs E : Type 0} (config : Config) (tls : Bool) where
  unfoldable pub Bounded : Server A I S Certs E → Type 0
  Bounded s =
      (s.config ≡ config) × (s.tls ≡ tls) × (length s.pending_connections ≤ limit config tls)

  handle_incomming-Bounded :
      (f : S → Option Certs) (id : ConnectionId) (now : ℕ) (stream : I) (remote_addr : A)
      (s : Server A I S Certs E)
      → Bounded s
      → Bounded (Server.handle_incomming f id now stream remote_addr s)
  unfolding Server.spawn_handshake Server.handle_connection Bounded limit
  handle_incomming-Bounded f id now stream remote_addr s h =
      elim (handle_incomming-Incoming f id now stream remote_addr s) [
        | dropped q ↦ subst Bounded (sym q) h
        | shakes e l q ↦ subst Bounded (sym q) (
          h.0,
          h.1,
          omega (
            arith,
            l,
            ap (λ c. c.max_pending_connections) h.0,
            limit-tls config tls (sym h.1 ∙ e),
          ),
        )
        | served e q ↦ subst Bounded (sym q) h
      ]

  on_handshake-Bounded :
      (f : S → Option Certs) (id : ConnectionId) (now : ℕ) (remote_addr : A)
      (r : Result S (HandshakeError E)) (rest : List (Handshake A I S E)) (s : Server A I S Certs E)
      → length rest ≤ length s.pending_connections
      → Bounded s
      → Bounded (Server.on_handshake f id now remote_addr r rest s)
  unfolding Server.on_handshake Server.handle_connection Bounded
  on_handshake-Bounded f id now remote_addr (err x) rest s l h = (h.0, h.1, omega (arith, h.2))
  on_handshake-Bounded f id now remote_addr (ok stream) rest s l h = (h.0, h.1, omega (arith, h.2))

  on_handler-Bounded :
      (r : Run (Unit {0})) (rest : List (Handler A Certs)) (s : Server A I S Certs E)
      → Bounded s
      → Bounded (Server.on_handler r rest s)
  unfolding Server.on_handler Server.unwind Bounded
  on_handler-Bounded (done u) rest s h = h
  on_handler-Bounded panic rest s h = (h.0, h.1, omega arith)

  Bounded-rule :
      (f : S → Option Certs) (s t : Server A I S Certs E) → Step f s t → Bounded s → Bounded t
  unfolding Bounded Server.trigger_shutdown Server.close_connection Server.shake Server.unwind
      Server.begin_shutdown Server.reap Server.start_grace Server.join Server.finish_shutdown
      Server.end_handler Server.force_shutdown
  Bounded-rule f s t (triggered q) h = subst Bounded (sym q) h
  Bounded-rule f s t (closed id q) h = subst Bounded (sym q) h
  Bounded-rule f s t (accepted id now stream remote_addr p fresh q) h =
      subst Bounded (sym q) (handle_incomming-Bounded f id now stream remote_addr s h)
  Bounded-rule f s t (shook k now p q) h =
      let same = length-update_at _ k s.pending_connections in
      subst Bounded (sym q) (h.0, h.1, subst (λ n. n ≤ limit config tls) (sym same) h.2)
  Bounded-rule f s t (handshake_joined id now k remote_addr r rest p g fresh q) h =
      subst Bounded (sym q)
        (on_handshake-Bounded f id now remote_addr r rest s (length-take_at k _ _ rest g) h)
  Bounded-rule f s t (handshake_panicked k remote_addr rest p g q) h =
      subst Bounded (sym q) (h.0, h.1, omega arith)
  Bounded-rule f s t (handler_ended id r q) h = subst Bounded (sym q) h
  Bounded-rule f s t (handler_joined k r rest p g q) h =
      subst Bounded (sym q) (on_handler-Bounded r rest s h)
  Bounded-rule f s t (shut_down p c q) h = subst Bounded (sym q) h
  Bounded-rule f s t (reaped k remote_addr r rest p g q) h =
      let fewer = length-take_at k _ s.pending_connections rest g in
      subst Bounded (sym q) (h.0, h.1, omega (arith, h.2))
  Bounded-rule f s t (aborted now p g q) h = subst Bounded (sym q) h
  Bounded-rule f s t (joined k r rest p g q) h = subst Bounded (sym q) h
  Bounded-rule f s t (drained p g q) h = subst Bounded (sym q) h
  Bounded-rule f s t (forced deadline now p l q) h = subst Bounded (sym q) h

-- Wherever a server gets from its start, its configuration is the one it was given, and it has
-- at most `max_pending_connections` TLS handshakes pending, and none without TLS.
pub Reaches-Bounded :
    {A I S Certs E : Type 0} (f : S → Option Certs) (config : Config) (tls : Bool) (local_addr : A)
    (t : Server A I S Certs E)
    → Reaches f (Server.start config tls local_addr) t
    → Bounded config tls t
unfolding Bounded Server.start
Reaches-Bounded f config tls local_addr t r =
    reaches_rule (Bounded config tls) (Bounded-rule config tls f)
      (Server.start config tls local_addr) t r (refl, refl, omega arith)
