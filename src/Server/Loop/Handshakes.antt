-- ===== src/Server/Loop/Handshakes.antt =====
-- What becomes of a TLS handshake.
use sui_http.Prelude.{
  ℕ, ◌+◌, ◌<◌, ◌≡◌, refl, ap, ◌∙◌, leb, true, false, Option, some, List, All, [], ◌∷◌, ◌++◌, length,
  Result, ok, err, panic, Bool-cases, Run, done, Poll, ready, pending, inl, inr, arith,
  if◌then◌else◌,
}
use sui_http.Connection.Info.{ConnectionId}
use sui_http.Server
use sui_http.Server.{Server, Phase, serving}
use sui_http.Server.Io.{io, tls_io}
use sui_http.Server.Tasks.{
  Handshake, spawned, handshaking, poll_handshake, shaken_with, await_session, update_at, take_at,
}
use sui_http.Server.Loop.{
  Branch, Event, selects, shakes, accept, join_pending, on_pending, select, select_in, act, run,
}

-- The first poll, in a list that ends in `t`.
abbrev pub first : List ℕ → ℕ → ℕ
first [] t = t
first (u ∷ us) t = u

-- Polls of the first task, none of which finds the session ready.
abbrev pub stalls : {A I S E : Type 0} → List ℕ → List (Event A I S E)
stalls [] = []
stalls (u ∷ us) = shakes 0 u pending ∷ stalls us

module _ {A I S Certs E : Type 0} (f : S → Option Certs) where
  serving_act :
      (b : Branch A I) (s : Server A I S Certs E)
      → s.phase ≡ serving
      → act f (selects b) s ≡ select f b s
  unfolding act select_in
  serving_act b s p = ap (λ ph. select_in f ph b s) p

  -- With room for it, a handshake starts.
  accept_lem :
      (s : Server A I S Certs E) (id : ConnectionId) (now : ℕ) (stream : I) (remote_addr : A)
      → s.phase ≡ serving
      → s.tls ≡ true
      → length s.pending_connections < s.config.max_pending_connections
      → act f (selects (accept id now stream remote_addr)) s
        ≡ Server.spawn_handshake stream remote_addr s
  unfolding select Server.handle_incomming
  accept_lem s id now stream remote_addr running tls room =
      let begun = Server.spawn_handshake stream remote_addr s in
      let full = leb s.config.max_pending_connections (length s.pending_connections) in
      let roomy : full ≡ false = ground arith in
      serving_act (accept id now stream remote_addr) s running
      ∙ ap
          (λ b.
            if b
            then (if full then s else begun)
            else Server.handle_connection f id now (io stream) remote_addr s)
          tls
      ∙ ap (λ b. if b then s else begun) roomy

  abbrev pub with_handshake : Handshake A I S E → Server A I S Certs E → Server A I S Certs E
  with_handshake h s = record s { pending_connections = h ∷ s.pending_connections }

  -- What a server makes of a TLS handshake with a deadline, by what the poll of its session finds at
  -- `t`, once it has tried to join the task at `t'`.
  abbrev pub after_handshake :
      ConnectionId
      → ℕ
      → ℕ
      → ℕ
      → I
      → A
      → Poll (Run (Result S E))
      → Server A I S Certs E
      → Server A I S Certs E
  after_handshake id deadline t t' stream remote_addr (ready (done (ok tls))) s =
      Server.handle_connection f id t' (tls_io tls) remote_addr s
  after_handshake id deadline t t' stream remote_addr (ready (done (err e))) s = s
  after_handshake id deadline t t' stream remote_addr (ready panic) s = Server.unwind s
  after_handshake id deadline t t' stream remote_addr pending s =
      if leb deadline t then s else with_handshake (handshaking stream remote_addr deadline) s

  -- The task, once polled.
  abbrev polled : ℕ → ℕ → I → A → Poll (Run (Result S E)) → Handshake A I S E
  polled deadline t stream remote_addr (ready r) = shaken_with remote_addr r
  polled deadline t stream remote_addr pending = await_session stream remote_addr deadline t

  joined_lem :
      (s : Server A I S Certs E) (id : ConnectionId) (deadline t t' : ℕ) (stream : I)
      (remote_addr : A) (p : Poll (Run (Result S E)))
      → on_pending f id t'
          (some (polled deadline t stream remote_addr p, s.pending_connections))
          (with_handshake (polled deadline t stream remote_addr p) s)
        ≡ after_handshake id deadline t t' stream remote_addr p s
  unfolding on_pending shaken_with Server.on_handshake Server.unwind await_session
  joined_lem s id deadline t t' stream remote_addr (ready (done (ok tls))) = refl
  joined_lem s id deadline t t' stream remote_addr (ready (done (err e))) = refl
  joined_lem s id deadline t t' stream remote_addr (ready panic) = refl
  joined_lem s id deadline t t' stream remote_addr pending = elim (Bool-cases (leb deadline t)) [
    | inl e ↦ rw (e, on_pending, Server.on_handshake) refl
    | inr e ↦ rw (e, on_pending) refl
  ]

  -- The last poll, and the join.
  last_lem :
      (s : Server A I S Certs E) (id : ConnectionId) (deadline t t' : ℕ) (stream : I)
      (remote_addr : A) (p : Poll (Run (Result S E))) (h : Handshake A I S E)
      → s.phase ≡ serving
      → poll_handshake t p h ≡ polled deadline t stream remote_addr p
      → run f (shakes 0 t p ∷ selects (join_pending id t' 0) ∷ []) (with_handshake h s)
        ≡ after_handshake id deadline t t' stream remote_addr p s
  unfolding run act select Server.shake update_at take_at
  last_lem s id deadline t t' stream remote_addr p h running q =
      let s' = with_handshake (polled deadline t stream remote_addr p) s in
      ap (λ h'. act f (selects (join_pending id t' 0)) (with_handshake h' s)) q
      ∙ serving_act (join_pending id t' 0) s' running
      ∙ joined_lem s id deadline t t' stream remote_addr p

  poll_handshaking :
      (deadline t : ℕ) (stream : I) (remote_addr : A) (p : Poll (Run (Result S E)))
      → poll_handshake t p (handshaking stream remote_addr deadline)
        ≡ polled deadline t stream remote_addr p
  unfolding poll_handshake
  poll_handshaking deadline t stream remote_addr (ready r) = refl
  poll_handshaking deadline t stream remote_addr pending = refl

  poll_spawned :
      (timeout t : ℕ) (stream : I) (remote_addr : A) (p : Poll (Run (Result S E)))
      → poll_handshake t p (spawned stream remote_addr timeout)
        ≡ polled (t + timeout) t stream remote_addr p
  unfolding poll_handshake
  poll_spawned timeout t stream remote_addr (ready r) = refl
  poll_spawned timeout t stream remote_addr pending = refl

  await_early :
      (deadline t : ℕ) (stream : I) (remote_addr : A)
      → t < deadline
      → let h : Handshake A I S E = handshaking stream remote_addr deadline in
        await_session stream remote_addr deadline t ≡ h
  unfolding await_session
  await_early deadline t stream remote_addr l = ground arith

  -- Polls before the deadline leave the handshake as it is.
  stalls_lem :
      (deadline : ℕ) (us : List ℕ) (stream : I) (remote_addr : A) (es : List (Event A I S E))
      (s : Server A I S Certs E)
      → All (λ u. u < deadline) us
      → run f (stalls us ++ es) (with_handshake (handshaking stream remote_addr deadline) s)
        ≡ run f es (with_handshake (handshaking stream remote_addr deadline) s)
  unfolding run act Server.shake update_at poll_handshake
  stalls_lem deadline [] stream remote_addr es s l = refl
  stalls_lem deadline (u ∷ us) stream remote_addr es s (l, ls) =
      ap (λ h. run f (stalls us ++ es) (with_handshake h s))
        (await_early deadline u stream remote_addr l)
      ∙ stalls_lem deadline us stream remote_addr es s ls

  spawned_lem :
      (s : Server A I S Certs E) (id : ConnectionId) (us : List ℕ) (t t' : ℕ) (stream : I)
      (remote_addr : A) (p : Poll (Run (Result S E)))
      → let deadline = first us t + s.config.tls_handshake_timeout in
        s.phase ≡ serving
        → All (λ u. u < deadline) us
        → run f
            (stalls us ++ (shakes 0 t p ∷ selects (join_pending id t' 0) ∷ []))
            (Server.spawn_handshake stream remote_addr s)
          ≡ after_handshake id deadline t t' stream remote_addr p s
  unfolding Server.spawn_handshake run act Server.shake update_at poll_handshake
  spawned_lem s id [] t t' stream remote_addr p running l =
      let timeout = s.config.tls_handshake_timeout in
      last_lem s id (t + timeout) t t' stream remote_addr p (spawned stream remote_addr timeout)
        running (poll_spawned timeout t stream remote_addr p)
  spawned_lem s id (u ∷ us) t t' stream remote_addr p running (l, ls) =
      let deadline = u + s.config.tls_handshake_timeout in
      let es : List (Event A I S E) = shakes 0 t p ∷ selects (join_pending id t' 0) ∷ [] in
      ap (λ h. run f (stalls us ++ es) (with_handshake h s))
        (await_early deadline u stream remote_addr l)
      ∙ stalls_lem deadline us stream remote_addr es s ls
      ∙ last_lem s id deadline t t' stream remote_addr p (handshaking stream remote_addr deadline)
          running (poll_handshaking deadline t stream remote_addr p)

  -- In the loop of a server with TLS, where there is room: a stream is accepted, and its handshake
  -- polled again and again before its deadline, which is the timeout after its first poll, whenever
  -- that is. By what the last poll then finds, the connection is served if the handshake succeeded;
  -- it leaves no trace if the handshake failed, or has not ended at the deadline; its panic goes on
  -- through `serve`; and else it is pending still, with the deadline that the first poll set.
  pub run-after_handshake :
      (s : Server A I S Certs E) (id id' : ConnectionId) (now : ℕ) (us : List ℕ) (t t' : ℕ)
      (stream : I) (remote_addr : A) (p : Poll (Run (Result S E)))
      → let deadline = first us t + s.config.tls_handshake_timeout in
        s.phase ≡ serving
        → s.tls ≡ true
        → length s.pending_connections < s.config.max_pending_connections
        → All (λ u. u < deadline) us
        → run f
            (selects (accept id now stream remote_addr) ∷ stalls us
              ++ (shakes 0 t p ∷ selects (join_pending id' t' 0) ∷ []))
            s
          ≡ after_handshake id' deadline t t' stream remote_addr p s
  unfolding run
  run-after_handshake s id id' now us t t' stream remote_addr p running tls room early =
      let es : List (Event A I S E) = shakes 0 t p ∷ selects (join_pending id' t' 0) ∷ [] in
      ap (λ u. run f (stalls us ++ es) u) (accept_lem s id now stream remote_addr running tls room)
      ∙ spawned_lem s id' us t t' stream remote_addr p running early
