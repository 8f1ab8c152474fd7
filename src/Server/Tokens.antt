-- ===== src/Server/Tokens.antt =====
-- src/lib.rs, src/connection_info.rs: who is asked to shut down, by which call.
use mathlib.Core.Option
use sui_http.Prelude.{◌≡◌, refl, Bool, true, ◌||◌, Option, none, some, List, [], ◌∷◌, ◌==◌, arith}
use sui_http.Connection.Info
use sui_http.Connection.Info.{ConnectionId, ConnectionInfo, is_cancelled}
use sui_http.Connection.Registry.{lookup}
use sui_http.Server
use sui_http.Server.{Server, close_at}

module _ {A I S Certs E : Type 0} where
  -- The state of the token of the connection `id`, if there is one.
  abbrev pub asked : ConnectionId → Server A I S Certs E → Option Bool
  asked id s = Option.map (is_cancelled s.cancelled) (lookup id s.connections)

asked-close_at :
    {A Certs : Type 0} (id j : ConnectionId) (cancelled : Bool)
    (m : List (ConnectionId × ConnectionInfo A Certs))
    → Option.map (is_cancelled cancelled) (lookup j (close_at id m))
      ≡ Option.map (λ b. (id == j) || b) (Option.map (is_cancelled cancelled) (lookup j m))
unfolding close_at lookup is_cancelled Info.close
asked-close_at id j cancelled [] = refl
asked-close_at id j cancelled ((k, c) ∷ m) = ground (arith, asked-close_at id j cancelled m)

all_asked :
    {A Certs : Type 0} (o : Option (ConnectionInfo A Certs)) (cancelled : Bool)
    → Option.map (is_cancelled true) o
      ≡ Option.map (λ b. true) (Option.map (is_cancelled cancelled) o)
unfolding is_cancelled
all_asked none cancelled = refl
all_asked (some c) cancelled = refl

-- `ConnectionInfo::close` asks the connection that it is called on to shut down, and no other;
-- `trigger_shutdown` asks all that are connected, and so does the begin of the shutdown, whether or
-- not it was triggered. None takes back what was asked.
pub asked-close_connection :
    {A I S Certs E : Type 0} (id j : ConnectionId) (s : Server A I S Certs E)
    → (asked j (Server.close_connection id s) ≡ Option.map (λ b. (id == j) || b) (asked j s))
      × (asked j (Server.trigger_shutdown s) ≡ Option.map (λ b. true) (asked j s))
      × (asked j (Server.begin_shutdown s) ≡ Option.map (λ b. true) (asked j s))
unfolding Server.close_connection Server.trigger_shutdown Server.begin_shutdown
asked-close_connection id j s =
    let all = all_asked (lookup j s.connections) s.cancelled in
    (asked-close_at id j s.cancelled s.connections, all, all)
