-- ===== src/Server/Build/Outcome.antt =====
-- What `Builder::serve` returns.
use sui_http.Prelude.{◌≡◌, refl, ◌⊎◌, inl, inr, Bool, true, Result, ok, err}
use sui_http.Listener.Tcp
use sui_http.Listener.Tcp.{TcpListenerWithOptions, from_listener, ◌>>=◌}
use sui_http.Server
use sui_http.Server.Build.{Rustls, Builder, Started, is_some, advertise, serve}

pub Result-cases :
    {A E : Type 0} (r : Result A E) → ((a : A) × (r ≡ ok a)) ⊎ ((e : E) × (r ≡ err e))
Result-cases (ok a) = inl (a, refl)
Result-cases (err e) = inr (e, refl)

module _ {Addr Std L Err : Type 0} (bind : Addr → Result Std Err)
    (set_nonblocking : Std → Bool → Result Std Err) (from_std : Std → Result L Err) where
  -- The socket of `addr`, bound, set not to block, and taken over.
  pub record Bound (addr : Addr) (l : L) : Type 0 where
    pub std : Std
    pub std' : Std
    pub bound : bind addr ≡ ok std
    pub set : set_nonblocking std true ≡ ok std'
    pub taken : from_std std' ≡ ok l

  module _ {A : Type 0} (local_addr : L → Result A Err) where
    -- The error is that of the first step that fails.
    pub data Failed (addr : Addr) (e : Err) : Type 0 where
      bind_failed : bind addr ≡ err e → Failed addr e
      set_nonblocking_failed :
          (std : Std) → bind addr ≡ ok std → set_nonblocking std true ≡ err e → Failed addr e
      from_std_failed :
          (std std' : Std)
          → bind addr ≡ ok std
          → set_nonblocking std true ≡ ok std'
          → from_std std' ≡ err e
          → Failed addr e
      local_addr_failed : (l : L) → Bound addr l → local_addr l ≡ err e → Failed addr e

module _ (r : Rustls) {Addr Std L A I S Certs E Err : Type 0} (bind : Addr → Result Std Err)
    (set_nonblocking : Std → Bool → Result Std Err) (from_std : Std → Result L Err)
    (local_addr : L → Result A Err) where
  -- A server that runs: its listener is bound to the address and has the options of the
  -- configuration, the handle gives the address that the listener says, and nothing is connected.
  pub record Serving (b : Builder r.ServerConfig) (addr : Addr)
      (h : Started (TcpListenerWithOptions L) r.ServerConfig A I S Certs E) : Type 0 where
    pub l : L
    pub opened : Bound bind set_nonblocking from_std addr l
    pub options : h.listener ≡ from_listener l b.config.tcp_nodelay b.config.tcp_keepalive
    pub addressed : local_addr l ≡ ok h.local_addr
    pub started : h.server ≡ Server.start b.config (is_some b.tls_config) h.local_addr
    pub advertised : h.tls_config ≡ advertise r b.config b.tls_config

  -- `Builder::serve` either returns a handle of a server that runs, or the error of the first of
  -- its steps that fails: to bind, to set the socket not to block, to take it over, to ask for its
  -- address.
  pub serve_outcome :
      (b : Builder r.ServerConfig) (addr : Addr)
      → let out : Result (Started (TcpListenerWithOptions L) r.ServerConfig A I S Certs E) Err =
          serve r bind set_nonblocking from_std local_addr b addr in
        ((h : Started (TcpListenerWithOptions L) r.ServerConfig A I S Certs E) × (out ≡ ok h)
          × Serving b addr h)
        ⊎ ((e : Err) × (out ≡ err e) × Failed bind set_nonblocking from_std local_addr addr e)
  unfolding serve from_listener Tcp.local_addr
  serve_outcome b addr = elim (Result-cases (bind addr)) [
    | inr (e, h) ↦ inr (e, rw (h, ◌>>=◌), bind_failed h)
    | inl (std, h) ↦ elim (Result-cases (set_nonblocking std true)) [
      | inr (e, k) ↦ inr (e, rw (h, ◌>>=◌, k, ◌>>=◌), set_nonblocking_failed std h k)
      | inl (std', k) ↦ elim (Result-cases (from_std std')) [
        | inr (e, m) ↦ inr (e, rw (h, k, m), from_std_failed std std' h k m)
        | inl (l, m) ↦
            let opened : Bound bind set_nonblocking from_std addr l = record {
              std = std;
              std' = std';
              bound = h;
              set = k;
              taken = m;
            } in
            elim (Result-cases (local_addr l)) [
              | inr (e, n) ↦ inr (e, rw (h, k, m, n), local_addr_failed l opened n)
              | inl (a, n) ↦ inl (
                _,
                rw (h, k, m, n),
                record {
                  l = l;
                  opened = opened;
                  options = refl;
                  addressed = n;
                  started = refl;
                  advertised = refl;
                },
              )
            ]
      ]
    ]
  ]
