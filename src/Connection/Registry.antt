-- ===== src/Connection/Registry.antt =====
-- src/connection_info.rs, `ActiveConnections`, and src/connection_handler.rs, `OnConnectionClose`:
-- the map from ids to connections, as a list with the newest entry first.
use sui_http.Prelude.{
  ◌≡◌, ◌≢◌, refl, List, [], ◌∷◌, Option, none, some, ◌==◌, if◌then◌else◌, All, arith,
}
use sui_http.Connection.Info.{ConnectionId}

module _ {V : Type 0} where
  unfoldable pub remove : ConnectionId → List (ConnectionId × V) → List (ConnectionId × V)
  remove id [] = []
  remove id ((k, v) ∷ m) = if k == id then m else (k, v) ∷ remove id m

  -- `HashMap::insert`: an entry under the same key goes.
  unfoldable pub insert : ConnectionId → V → List (ConnectionId × V) → List (ConnectionId × V)
  unfolding remove
  insert id v m = (id, v) ∷ remove id m

  unfoldable pub lookup : ConnectionId → List (ConnectionId × V) → Option V
  lookup id [] = none
  lookup id ((k, v) ∷ m) = if k == id then some v else lookup id m

abbrev pub keys : {V : Type 0} → List (ConnectionId × V) → List ConnectionId
keys [] = []
keys ((k, v) ∷ m) = k ∷ keys m

-- One occurrence taken out of a list of ids.
unfoldable pub erase : ConnectionId → List ConnectionId → List ConnectionId
erase id [] = []
erase id (k ∷ ks) = if k == id then ks else k ∷ erase id ks

abbrev pub Absent : ConnectionId → List ConnectionId → Type 0
Absent id = All (λ k. k ≢ id)

-- No id stands twice.
abbrev pub Distinct : List ConnectionId → Type 0
Distinct [] = Unit
Distinct (k ∷ ks) = Absent k ks × Distinct ks

-- `OnConnectionClose`, whose `Drop` removes the connection that it was made for.
pub record OnConnectionClose : Type 0 where
  pub id : ConnectionId

unfoldable pub drop :
    {V : Type 0} → OnConnectionClose → List (ConnectionId × V) → List (ConnectionId × V)
drop c m = remove c.id m

pub keys-remove :
    {V : Type 0} (id : ConnectionId) (m : List (ConnectionId × V))
    → keys (remove id m) ≡ erase id (keys m)
unfolding remove erase
keys-remove id [] = refl
keys-remove id ((k, v) ∷ m) = ground (arith, keys-remove id m)

pub erase-Absent : (id : ConnectionId) (ks : List ConnectionId) → Absent id ks → erase id ks ≡ ks
unfolding erase
erase-Absent id [] h = refl
erase-Absent id (k ∷ ks) (h, hs) = ground (arith, erase-Absent id ks hs)

pub Absent-erase :
    (id k : ConnectionId) (ks : List ConnectionId) → Absent k ks → Absent k (erase id ks)
unfolding erase
Absent-erase id k [] h = tt
Absent-erase id k (j ∷ ks) (h, hs) = ground (arith, Absent-erase id k ks hs)

pub Distinct-erase :
    (id : ConnectionId) (ks : List ConnectionId) → Distinct ks → Distinct (erase id ks)
unfolding erase
Distinct-erase id [] h = tt
Distinct-erase id (k ∷ ks) (h, hs) = ground (arith, Distinct-erase id ks hs, Absent-erase id k ks h)
