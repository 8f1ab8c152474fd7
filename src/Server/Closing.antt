-- ===== src/Server/Closing.antt =====
-- src/lib.rs and src/connection_handler.rs together: the task of a connection, in the server that
-- spawned it.
use sui_http.Prelude.{
  ℕ, ◌+◌, ◌≤◌, ◌≡◌, sym, ap, ◌∙◌, subst, Bool, true, Option, none, some, List, ◌∷◌, ◌++◌, done,
  Duration, All, if◌then◌else◌,
}
use sui_http.Config.{Config}
use sui_http.Connection.Info.{ConnectionId, ConnectionInfo}
use sui_http.Connection.Registry
use sui_http.Connection.Registry.{lookup, keys, Distinct}
use sui_http.Connection.Drive.{Wake, Turn, drive_connection}
use sui_http.Connection.Drive.Lifetime.Bounds.{IsClosed, cancelled-IsClosed}
use sui_http.Connection.Serve.{serve_connection, dropped-closed, lookup-remove}
use sui_http.Server
use sui_http.Server.{Server}
use sui_http.Server.Tasks.{Handler, in_progress, Work, take_at}
use sui_http.Server.Steps.{Reaches}
use sui_http.Server.Tracked.{Tracked, Reaches-Tracked}
use sui_http.Server.Tracked.Entries.{keys-entries}
use sui_http.Server.Configured.{Configured, Reaches-Configured}
use sui_http.Server.Configured.Tasks.{All-take_at}

grace_of :
    {A I S Certs E : Type 0} (f : S → Option Certs) (config : Config) (tls : Bool) (local_addr : A)
    (s : Server A I S Certs E) (k : ℕ) (work : Work A Certs) (rest : List (Handler A Certs))
    → Reaches f (Server.start config tls local_addr) s
    → take_at k s.connection_handlers ≡ some (in_progress work, rest)
    → work.max_connection_age_grace ≡ config.max_connection_age_grace
unfolding Configured
grace_of f config tls local_addr s k work rest r there =
    let all = (Reaches-Configured config local_addr f tls s r).2 in
    (All-take_at _ k _ s.connection_handlers rest there all).0.2

ids :
    {A I S Certs E : Type 0} (f : S → Option Certs) (config : Config) (tls : Bool) (local_addr : A)
    (s : Server A I S Certs E)
    → Reaches f (Server.start config tls local_addr) s
    → Distinct (keys s.connections)
unfolding Tracked
ids f config tls local_addr s r =
    subst Distinct (keys-entries s.connections) (Reaches-Tracked f config tls local_addr s r).1

module _ {A I S Certs : Type 0} {E H : Type 0} where
  -- The task of a connection: what `handle_connection` spawns, with the wake-ups of its two
  -- possible connections.
  unfoldable pub task :
      Work A Certs
      → Bool
      → List (Wake H)
      → List (Wake H)
      → Server A I S Certs E
      → Turn H × List (ConnectionId × ConnectionInfo A Certs)
  unfolding serve_connection
  task w is_http1_available with_upgrades plain s =
      serve_connection is_http1_available with_upgrades plain w.max_connection_age
        w.max_connection_age_grace w.on_connection_close s.connections

  -- A server whose configuration has a grace period `g`, anywhere on its way: if the task of a
  -- connection in progress is woken at `w` with its token cancelled, no earlier than before, and
  -- again at least `g` later, it leaves `connections` as the end of its handler does, and no entry for its id.
  pub task-removes :
      (f : S → Option Certs) (config : Config) (tls : Bool) (local_addr : A)
      (s : Server A I S Certs E) (g : Duration) (k : ℕ) (work : Work A Certs)
      (rest : List (Handler A Certs)) (is_http1_available : Bool)
      (with_upgrades plain ws₁ : List (Wake H)) (w : Wake H) (ws₂ : List (Wake H)) (v : Wake H)
      (ws₃ : List (Wake H))
      → Reaches f (Server.start config tls local_addr) s
      → config.max_connection_age_grace ≡ some g
      → take_at k s.connection_handlers ≡ some (in_progress work, rest)
      → (if is_http1_available then with_upgrades else plain) ≡ ws₁ ++ (w ∷ ws₂ ++ v ∷ ws₃)
      → All (λ u. u.now ≤ w.now) ws₁
      → w.cancelled ≡ true
      → w.now + g ≤ v.now
      → let left = (task work is_http1_available with_upgrades plain s).1 in
        (left ≡ (Server.end_handler work.on_connection_close.id (done tt) s).connections)
        × (lookup work.on_connection_close.id left ≡ none)
  unfolding task serve_connection Server.end_handler Registry.drop
  task-removes f config tls local_addr s g k work rest is_http1_available with_upgrades plain ws₁ w
        ws₂ v ws₃ r limited there chosen early cancelled late =
      let c = work.on_connection_close in
      let grace = grace_of f config tls local_addr s k work rest r there ∙ limited in
      let wakes : List (Wake H) = if is_http1_available then with_upgrades else plain in
      let gone = dropped-closed c _ s.connections (
        subst (λ o. IsClosed (drive_connection o work.max_connection_age wakes)) (sym grace)
          (subst (λ ws. IsClosed (drive_connection (some g) work.max_connection_age ws))
            (sym chosen)
            (cancelled-IsClosed g work.max_connection_age ws₁ w ws₂ v ws₃ early cancelled late))) in
      (
        gone,
        ap (lookup c.id) gone ∙ lookup-remove c.id s.connections (ids f config tls local_addr s r),
      )
