-- ===== src/Server/Tracked/Entries.antt =====
-- src/lib.rs: the entries of `connections` beside the handlers in progress.
use sui_http.Prelude.{
  ℕ, zero, suc, ◌≡◌, refl, ap, ◌==◌, Option, some, List, [], ◌∷◌, Run, arith, Bool-cases,
  Option-cases, inl, inr,
}
use sui_http.Connection.Info
use sui_http.Connection.Info.{ConnectionId, ConnectionInfo}
use sui_http.Connection.Registry.{keys, remove, Absent}
use sui_http.Server
use sui_http.Server.Tasks.{Handler, in_progress, ended, finish, take_at, keep}

remove-same :
    {V : Type 0} (id : ConnectionId) (v : V) (m : List (ConnectionId × V))
    → remove id ((id, v) ∷ m) ≡ m
unfolding remove
remove-same id v m = ground arith

pub remove-Absent :
    {V : Type 0} (id : ConnectionId) (m : List (ConnectionId × V))
    → Absent id (keys m)
    → remove id m ≡ m
unfolding remove
remove-Absent id [] h = refl
remove-Absent id ((k, v) ∷ m) (h, hs) = ground (arith, remove-Absent id m hs)

module _ {A Certs : Type 0} where
  -- The peer's address and its certificates, by the id of the connection.
  abbrev pub entries :
      List (ConnectionId × ConnectionInfo A Certs) → List (ConnectionId × (A × Option Certs))
  entries [] = []
  entries ((k, c) ∷ m) = (k, (c.address, c.peer_certificates)) ∷ entries m

  -- The same of the handlers in progress.
  abbrev pub in_work : List (Handler A Certs) → List (ConnectionId × (A × Option Certs))
  in_work [] = []
  in_work (ended r ∷ hs) = in_work hs
  in_work (in_progress w ∷ hs) =
      (w.on_connection_close.id, (w.connect_info.remote_addr, w.peer_certificates)) ∷ in_work hs

  pub keys-entries : (m : List (ConnectionId × ConnectionInfo A Certs)) → keys (entries m) ≡ keys m
  keys-entries [] = refl
  keys-entries ((k, c) ∷ m) = ap (λ ks. k ∷ ks) (keys-entries m)

  pub entries-remove :
      (id : ConnectionId) (m : List (ConnectionId × ConnectionInfo A Certs))
      → entries (remove id m) ≡ remove id (entries m)
  unfolding remove
  entries-remove id [] = refl
  entries-remove id ((k, c) ∷ m) = elim (Bool-cases (k == id)) [
    | inl e ↦ rw e
    | inr e ↦ rw (e, entries-remove id m)
  ]

  pub entries-close_at :
      (id : ConnectionId) (m : List (ConnectionId × ConnectionInfo A Certs))
      → entries (Server.close_at id m) ≡ entries m
  unfolding Server.close_at Info.close
  entries-close_at id [] = refl
  entries-close_at id ((k, c) ∷ m) = elim (Bool-cases (k == id)) [
    | inl e ↦ rw (e, entries-close_at id m)
    | inr e ↦ rw (e, entries-close_at id m)
  ]

  pub in_work-finish :
      (id : ConnectionId) (r : Run (Unit {0})) (hs : List (Handler A Certs))
      → in_work (finish id r hs) ≡ remove id (in_work hs)
  unfolding finish remove
  in_work-finish id r [] = refl
  in_work-finish id r (ended r' ∷ hs) = in_work-finish id r hs
  in_work-finish id r (in_progress w ∷ hs) = elim (Bool-cases (w.on_connection_close.id == id)) [
    | inl e ↦ rw e
    | inr e ↦ rw (e, in_work-finish id r hs)
  ]

in_work-cons :
    {A Certs : Type 0} (x : Handler A Certs) (hs rest : List (Handler A Certs))
    → in_work rest ≡ in_work hs
    → in_work (x ∷ rest) ≡ in_work (x ∷ hs)
in_work-cons (ended r) hs rest h = h
in_work-cons (in_progress w) hs rest h = rw h

-- A task that is over is taken out.
pub in_work-take :
    {A Certs : Type 0} (k : ℕ) (r : Run (Unit {0})) (hs rest : List (Handler A Certs))
    → take_at k hs ≡ some (ended r, rest)
    → in_work rest ≡ in_work hs
unfolding take_at keep
in_work-take k r [] rest h = grind arith
in_work-take zero r (x ∷ hs) rest h = grind arith
in_work-take (suc k) r (x ∷ hs) rest h = elim (Option-cases (take_at k hs)) [
  | inl e ↦ grind arith
  | inr ((y, ys), e) ↦ grind (arith, in_work-take k r hs ys, in_work-cons x hs ys)
]
