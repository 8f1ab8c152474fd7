-- ===== src/Server/Requests.antt =====
-- src/lib.rs, `handle_connection`: what the handler inserts into the extensions of each request.
use sui_http.Prelude.{
  ℕ, zero, suc, ◌≡◌, sym, ap, ◌∙◌, subst, ◌==◌, Bool, Option, none, some, List, [], ◌∷◌, arith,
  Bool-cases, Option-cases, ==_iff, inl, inr,
}
use mathlib.Core.Option.{some-injective, none-ne-some}
use sui_http.Config.{Config}
use sui_http.Connection.Info.{ConnectionId, ConnectionInfo, ConnectInfo}
use sui_http.Connection.Registry.{keys, lookup, Distinct}
use sui_http.Connection.Serve.{lookup-Absent}
use sui_http.Server
use sui_http.Server.{Server}
use sui_http.Server.Tasks.{Handler, in_progress, ended, Work, take_at, keep}
use sui_http.Server.Steps.{Reaches}
use sui_http.Server.Tracked.{Tracked, Reaches-Tracked}
use sui_http.Server.Tracked.Entries.{entries, in_work}

-- `http::Extensions` at the two types that the source inserts: one value of each.
pub record Extensions (A Certs : Type 0) : Type 1 where
  pub Request : Type 0
  pub info : Request → Option (ConnectInfo A)
  pub certs : Request → Option Certs
  pub insert_info : ConnectInfo A → Request → Request
  pub insert_certs : Certs → Request → Request
  pub info-insert_info : (i : ConnectInfo A) (r : Request) → info (insert_info i r) ≡ some i
  pub certs-insert_info : (i : ConnectInfo A) (r : Request) → certs (insert_info i r) ≡ certs r
  pub info-insert_certs : (c : Certs) (r : Request) → info (insert_certs c r) ≡ info r
  pub certs-insert_certs : (c : Certs) (r : Request) → certs (insert_certs c r) ≡ some c

module _ {A Certs : Type 0} (x : Extensions A Certs) where
  -- The closure of `map_request`.
  unfoldable pub extend : Work A Certs → x.Request → x.Request
  extend w r =
      let r' = x.insert_info w.connect_info r in
      elim w.peer_certificates [ none ↦ r' | some c ↦ x.insert_certs c r' ]

  extend-info : (w : Work A Certs) (r : x.Request) → x.info (extend w r) ≡ some w.connect_info
  unfolding extend
  extend-info w r = elim (Option-cases w.peer_certificates) [
    | inl e ↦ rw (e, extend) (x.info-insert_info w.connect_info r)
    | inr (c, e) ↦
        rw (e, extend)
          (x.info-insert_certs c (x.insert_info w.connect_info r)
            ∙ x.info-insert_info w.connect_info r)
  ]

  extend-certs :
      (w : Work A Certs) (r : x.Request)
      → x.certs r ≡ none
      → x.certs (extend w r) ≡ w.peer_certificates
  unfolding extend
  extend-certs w r h = elim (Option-cases w.peer_certificates) [
    | inl e ↦ rw (e, extend) (x.certs-insert_info w.connect_info r ∙ h)
    | inr (c, e) ↦ rw (e, extend) (x.certs-insert_certs c (x.insert_info w.connect_info r))
  ]

lookup-first :
    {V : Type 0} (id : ConnectionId) (v : V) (m : List (ConnectionId × V))
    → lookup id ((id, v) ∷ m) ≡ some v
unfolding lookup
lookup-first id v m = ground arith

module _ {A Certs : Type 0} where
  lookup-entries :
      (id : ConnectionId) (m : List (ConnectionId × ConnectionInfo A Certs)) (a : A)
      (p : Option Certs)
      → lookup id (entries m) ≡ some (a, p)
      → (c : ConnectionInfo A Certs) × (lookup id m ≡ some c)
        × (c.address ≡ a)
        × (c.peer_certificates ≡ p)
  unfolding lookup
  lookup-entries id [] a p h = absurd (grind arith)
  lookup-entries id ((k, c) ∷ m) a p h = elim (Bool-cases (k == id)) [
    | inl e ↦
        let q = some-injective (c.address, c.peer_certificates) (a, p) (rw e at h) in
        (c, rw e, ap (λ z. z.0) q, ap (λ z. z.1) q)
    | inr e ↦
        let (c', found, address, certs) = lookup-entries id m a p (rw e at h) in
        (c', rw e found, address, certs)
  ]

  -- The handler at any place is found by its id.
  lookup-in_work :
      (k : ℕ) (hs rest : List (Handler A Certs)) (w : Work A Certs)
      → take_at k hs ≡ some (in_progress w, rest)
      → Distinct (keys (in_work hs))
      → lookup w.on_connection_close.id (in_work hs)
        ≡ some (w.connect_info.remote_addr, w.peer_certificates)
  unfolding lookup take_at keep
  lookup-in_work k [] rest w h d = absurd (grind arith)
  lookup-in_work zero (x ∷ hs) rest w h d =
      subst
        (λ y.
          lookup w.on_connection_close.id (in_work (y ∷ hs))
          ≡ some (w.connect_info.remote_addr, w.peer_certificates))
        (sym (ap (λ q. q.0) (some-injective (x, hs) (in_progress w, rest) h)))
        (lookup-first w.on_connection_close.id _ (in_work hs))
  lookup-in_work (suc k) (ended r ∷ hs) rest w h d = elim (Option-cases (take_at k hs)) [
    | inl e ↦ absurd (grind arith)
    | inr ((y, ys), e) ↦ lookup-in_work k hs ys w (grind arith) d
  ]
  lookup-in_work (suc k) (in_progress w' ∷ hs) rest w h (absent, d) =
      elim (Option-cases (take_at k hs)) [
        | inl e ↦ absurd (grind arith)
        | inr ((y, ys), e) ↦
            let there = lookup-in_work k hs ys w (grind arith) d in
            elim (Bool-cases (w'.on_connection_close.id == w.on_connection_close.id)) [
              | inl same ↦
                  let n =
                    subst (λ j. lookup j (in_work hs) ≡ none) ((==_iff _ _).0 same)
                      (lookup-Absent _ (in_work hs) absent) in
                  absurd (none-ne-some _ (sym n ∙ there))
              | inr other ↦ rw other there
            ]
      ]

-- Wherever a server gets from its start: the handler of a connection that is in progress inserts
-- into a request without certificates the peer's address and certificates that `connections` has
-- under the id of that connection.
pub extend-lookup :
    {A I S Certs E : Type 0} (x : Extensions A Certs) (f : S → Option Certs) (config : Config)
    (tls : Bool) (local_addr : A) (t : Server A I S Certs E) (k : ℕ) (w : Work A Certs)
    (rest : List (Handler A Certs)) (r : x.Request)
    → Reaches f (Server.start config tls local_addr) t
    → take_at k t.connection_handlers ≡ some (in_progress w, rest)
    → x.certs r ≡ none
    → (c : ConnectionInfo A Certs) × (lookup w.on_connection_close.id t.connections ≡ some c)
      × (x.certs (extend x w r) ≡ c.peer_certificates)
      × (i : ConnectInfo A) × (x.info (extend x w r) ≡ some i)
      × (i.remote_addr ≡ c.address)
unfolding Tracked
extend-lookup x f config tls local_addr t k w rest r reached here bare =
    let (same, distinct) = Reaches-Tracked f config tls local_addr t reached in
    let id = w.on_connection_close.id in
    let there =
      ap (lookup id) same
      ∙ lookup-in_work k t.connection_handlers rest w here
          (subst (λ m. Distinct (keys m)) same distinct) in
    let (c, found, address, certs) = lookup-entries id t.connections _ _ there in
    (c, found, extend-certs x w r bare ∙ sym certs, w.connect_info, extend-info x w r, sym address)
