-- ===== src/Server/Configured.antt =====
-- src/lib.rs, `handle_connection`: what each handler is given of the configuration.
pub mod Tasks
use sui_http.Prelude.{
  ℕ, ◌≡◌, refl, sym, ap, ◌∙◌, subst, Bool, Option, some, List, Run, done, panic, Result, ok, err,
  Duration, All,
}
use sui_http.Config.{Config}
use sui_http.Config.Builder.{connection_builder}
use sui_http.Connection.Info.{ConnectionId}
use sui_http.Server
use sui_http.Server.{Server}
use sui_http.Server.Io.{ServerIo, io, tls_io}
use sui_http.Server.Tasks.{Handshake, HandshakeError, Handler, Work, in_progress, ended}
use sui_http.Server.Incoming.{dropped, shakes, served, handle_incomming-Incoming}
use sui_http.Server.Steps.{
  Step, triggered, closed, accepted, shook, handshake_joined, handshake_panicked, handler_ended,
  handler_joined, shut_down, reaped, aborted, joined, drained, forced, Reaches, reaches_rule,
}
use sui_http.Server.Configured.Tasks.{All-finish, All-take_at}

-- A handler is given the builder and the limits that the configuration asks for, and the server's
-- own address.
abbrev pub IsConfigured : {A Certs : Type 0} → Config → A → Handler A Certs → Type 0
IsConfigured config local_addr (ended r) = Unit
IsConfigured config local_addr (in_progress w) =
    (w.builder ≡ connection_builder config)
    × (w.max_connection_age ≡ config.max_connection_age)
    × (w.max_connection_age_grace ≡ config.max_connection_age_grace)
    × (w.connect_info.local_addr ≡ local_addr)

module _ {A I S Certs E : Type 0} (config : Config) (local_addr : A) where
  unfoldable pub Configured : Server A I S Certs E → Type 0
  Configured s =
      (s.config ≡ config)
      × (s.local_addr ≡ local_addr)
      × All (IsConfigured config local_addr) s.connection_handlers

  handle_connection-Configured :
      (f : S → Option Certs) (id : ConnectionId) (now : ℕ) (stream : ServerIo I S) (remote_addr : A)
      (s : Server A I S Certs E)
      → Configured s
      → Configured (Server.handle_connection f id now stream remote_addr s)
  unfolding Configured Server.handle_connection
  handle_connection-Configured f id now stream remote_addr s (c, a, hs) = (
    c,
    a,
    (
      (
        ap connection_builder c,
        ap (λ x. x.max_connection_age) c,
        ap (λ x. x.max_connection_age_grace) c,
        a,
      ),
      hs,
    ),
  )

  handle_incomming-Configured :
      (f : S → Option Certs) (id : ConnectionId) (now : ℕ) (stream : I) (remote_addr : A)
      (s : Server A I S Certs E)
      → Configured s
      → Configured (Server.handle_incomming f id now stream remote_addr s)
  unfolding Configured Server.spawn_handshake
  handle_incomming-Configured f id now stream remote_addr s h =
      elim (handle_incomming-Incoming f id now stream remote_addr s) [
        | dropped q ↦ subst Configured (sym q) h
        | shakes e l q ↦ subst Configured (sym q) h
        | served e q ↦
            subst Configured (sym q)
              (handle_connection-Configured f id now (io stream) remote_addr s h)
      ]

  on_handshake-Configured :
      (f : S → Option Certs) (id : ConnectionId) (now : ℕ) (remote_addr : A)
      (r : Result S (HandshakeError E)) (rest : List (Handshake A I S E)) (s : Server A I S Certs E)
      → Configured s
      → Configured (Server.on_handshake f id now remote_addr r rest s)
  unfolding Configured Server.on_handshake
  on_handshake-Configured f id now remote_addr (err x) rest s h = h
  on_handshake-Configured f id now remote_addr (ok stream) rest s h =
      handle_connection-Configured f id now (tls_io stream) remote_addr
        (record s { pending_connections = rest }) h

  on_handler-Configured :
      (r : Run (Unit {0})) (rest : List (Handler A Certs)) (s : Server A I S Certs E)
      → All (IsConfigured config local_addr) rest
      → Configured s
      → Configured (Server.on_handler r rest s)
  unfolding Configured Server.on_handler Server.unwind
  on_handler-Configured (done u) rest s hs (c, a, _) = (c, a, hs)
  on_handler-Configured panic rest s hs (c, a, _) = (c, a, hs)

  Configured-rule :
      (f : S → Option Certs) (s t : Server A I S Certs E) → Step f s t → Configured s → Configured t
  unfolding Configured Server.trigger_shutdown Server.close_connection Server.shake Server.unwind
      Server.begin_shutdown Server.reap Server.start_grace Server.join Server.finish_shutdown
      Server.end_handler Server.force_shutdown
  Configured-rule f s t (triggered q) h = subst Configured (sym q) h
  Configured-rule f s t (closed id q) h = subst Configured (sym q) h
  Configured-rule f s t (accepted id now stream remote_addr p fresh q) h =
      subst Configured (sym q) (handle_incomming-Configured f id now stream remote_addr s h)
  Configured-rule f s t (shook k now p q) h = subst Configured (sym q) h
  Configured-rule f s t (handshake_joined id now k remote_addr r rest p g fresh q) h =
      subst Configured (sym q) (on_handshake-Configured f id now remote_addr r rest s h)
  Configured-rule f s t (handshake_panicked k remote_addr rest p g q) h = subst Configured (sym q) h
  Configured-rule f s t (handler_ended id r q) (c, a, hs) =
      subst Configured (sym q) (c, a, All-finish _ id r s.connection_handlers tt hs)
  Configured-rule f s t (handler_joined k r rest p g q) h =
      subst Configured (sym q)
        (on_handler-Configured r rest s (All-take_at _ k _ s.connection_handlers rest g h.2).1 h)
  Configured-rule f s t (shut_down p c q) h = subst Configured (sym q) h
  Configured-rule f s t (reaped k remote_addr r rest p g q) h = subst Configured (sym q) h
  Configured-rule f s t (aborted now p g q) h = subst Configured (sym q) h
  Configured-rule f s t (joined k r rest p g q) (c, a, hs) =
      subst Configured (sym q) (c, a, (All-take_at _ k _ s.connection_handlers rest g hs).1)
  Configured-rule f s t (drained p g q) h = subst Configured (sym q) h
  Configured-rule f s t (forced deadline now p l q) h = subst Configured (sym q) h

  -- Wherever a server gets from its start, however its connections came in, each handler in progress
  -- has the builder, the greatest age and the grace period of the server's configuration, and tells
  -- its requests the server's address.
  pub Reaches-Configured :
      (f : S → Option Certs) (tls : Bool) (t : Server A I S Certs E)
      → Reaches f (Server.start config tls local_addr) t
      → Configured t
  unfolding Configured Server.start
  Reaches-Configured f tls t r =
      reaches_rule Configured (Configured-rule f) (Server.start config tls local_addr) t r
        (refl, refl, tt)
