-- ===== src/Listener/Tcp/Options.antt =====
-- What an accepted connection looks like.
use sui_http.Prelude.{
  run_map, ◌≡◌, refl, ap, ◌∙◌, inl, inr, true, false, none, some, List, ◌∷◌, ◌++◌, map, Result, ok,
  err, done, Duration, Bool-cases, Option-cases, if◌then◌else◌,
}
use sui_http.Listener.Backoff.{ErrorKind}
use sui_http.Listener.Backoff.Schedule.{delays, serious, accept-delays}
use sui_http.Listener.Tcp.{
  Socket, TcpListenerWithOptions, apply_keepalive, set_accepted_socket_options, with_options,
  accept,
}

module _ (socket : Socket) {L : Type 0} (l : TcpListenerWithOptions L) where
  abbrev after_nodelay : socket.Stream → socket.Stream
  after_nodelay s = if l.nodelay then (socket.set_nodelay s true).1 else s

  -- The connection that the options leave, against the configuration.
  pub record IsConfigured (s t : socket.Stream) : Type 0 where
    pub nodelay_on :
        l.nodelay ≡ true → (socket.set_nodelay s true).0 ≡ ok tt → socket.nodelay t ≡ true
    pub nodelay_off : l.nodelay ≡ false → socket.nodelay t ≡ socket.nodelay s
    pub keepalive_on :
        (d : Duration)
        → l.keepalive ≡ some d
        → (socket.set_tcp_keepalive (after_nodelay s) d).0 ≡ ok tt
        → socket.keepalive t ≡ some d
    pub keepalive_off : l.keepalive ≡ none → socket.keepalive t ≡ socket.keepalive s

  apply_keepalive-nodelay :
      (s : socket.Stream) → socket.nodelay (apply_keepalive socket l s) ≡ socket.nodelay s
  unfolding apply_keepalive
  apply_keepalive-nodelay s = elim (Option-cases l.keepalive) [
    | inl e ↦ rw (e, apply_keepalive) refl
    | inr (d, e) ↦ rw (e, apply_keepalive) (socket.set_tcp_keepalive_nodelay s d)
  ]

  after_nodelay-keepalive :
      (s : socket.Stream) → socket.keepalive (after_nodelay s) ≡ socket.keepalive s
  after_nodelay-keepalive s = elim (Bool-cases l.nodelay) [
    | inl e ↦ rw e (socket.set_nodelay_keepalive s true)
    | inr e ↦ rw e refl
  ]

  options-IsConfigured :
      (s : socket.Stream) → IsConfigured s (set_accepted_socket_options socket l s)
  unfolding set_accepted_socket_options apply_keepalive
  options-IsConfigured s = record {
    nodelay_on = λ on good.
        apply_keepalive-nodelay (after_nodelay s) ∙ rw on (socket.set_nodelay_ok s true good);
    nodelay_off = λ off. apply_keepalive-nodelay (after_nodelay s) ∙ rw off refl;
    keepalive_on = λ d on good. rw (on, apply_keepalive) (socket.set_tcp_keepalive_ok _ d good);
    keepalive_off = λ off. rw (off, apply_keepalive) (after_nodelay-keepalive s);
  }

  -- After any errors, the connection that the system accepts is returned, after the sleeps of the
  -- backoff: an option that is on is set if the call that sets it succeeds, one that is off is
  -- left as it was, and a call that fails costs nothing else.
  pub accept-IsConfigured :
      {Addr : Type 0} (es : List ErrorKind) (io : socket.Stream) (addr : Addr)
      (later : List (Result (socket.Stream × Addr) ErrorKind))
      → (io' : socket.Stream) × (accept socket l (map err es ++ ok (io, addr) ∷ later)
          ≡ done (delays 0 (serious es), some (io', addr)))
        × IsConfigured io io'
  unfolding accept
  accept-IsConfigured es io addr later = (
    set_accepted_socket_options socket l io,
    ap (run_map (with_options socket l)) (accept-delays es (io, addr) later),
    options-IsConfigured io,
  )
