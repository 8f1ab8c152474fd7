-- ===== src/Connection/Serve.antt =====
-- src/connection_handler.rs, `serve_connection`: which of hyper-util's two connections is driven,
-- and the end of its entry in `connections`.
use sui_http.Prelude.{
  ◌+◌, ◌≤◌, ◌≡◌, refl, sym, ap, ◌∙◌, subst, ◌==◌, Bool, true, Option, none, some, List, [], ◌∷◌,
  ◌++◌, Duration, All, arith, if◌then◌else◌, Bool-cases, ==_iff, inl, inr,
}
use sui_http.Connection.Info.{ConnectionId}
use sui_http.Connection.Registry
use sui_http.Connection.Registry.{remove, lookup, keys, Absent, Distinct, OnConnectionClose}
use sui_http.Connection.Drive.{Wake, Turn, again, suspended, closed, drive_connection}
use sui_http.Connection.Drive.Lifetime.Bounds.{IsClosed, cancelled-IsClosed}

-- The guard is dropped when the loop is over.
unfoldable pub dropped :
    {E V : Type 0} → OnConnectionClose → Turn E → List (ConnectionId × V) → List (ConnectionId × V)
unfolding Registry.drop
dropped c (again d) m = m
dropped c (suspended d) m = m
dropped c (closed d o) m = Registry.drop c m

-- `with_upgrades` and `plain` are the wake-ups of the connection of `serve_connection_with_upgrades`
-- and of the one of `serve_connection`; `is_http1_available` is the builder's.
unfoldable pub serve_connection :
    {E V : Type 0}
    → Bool
    → List (Wake E)
    → List (Wake E)
    → Option Duration
    → Option Duration
    → OnConnectionClose
    → List (ConnectionId × V)
    → Turn E × List (ConnectionId × V)
unfolding dropped
serve_connection is_http1_available with_upgrades plain age grace on_connection_close connections =
    let t = drive_connection grace age (if is_http1_available then with_upgrades else plain) in
    (t, dropped on_connection_close t connections)

pub lookup-Absent :
    {V : Type 0} (id : ConnectionId) (m : List (ConnectionId × V))
    → Absent id (keys m)
    → lookup id m ≡ none
unfolding lookup
lookup-Absent id [] h = refl
lookup-Absent id ((k, v) ∷ m) (h, hs) = ground (arith, lookup-Absent id m hs)

pub lookup-remove :
    {V : Type 0} (id : ConnectionId) (m : List (ConnectionId × V))
    → Distinct (keys m)
    → lookup id (remove id m) ≡ none
unfolding lookup remove
lookup-remove id [] h = refl
lookup-remove id ((k, v) ∷ m) (h, hs) = elim (Bool-cases (k == id)) [
  | inl e ↦ rw e (lookup-Absent id m (subst (λ j. Absent j (keys m)) ((==_iff k id).0 e) h))
  | inr e ↦ rw (e, lookup) (rw e (lookup-remove id m hs))
]

module _ {E V : Type 0} where
  pub dropped-closed :
      (c : OnConnectionClose) (t : Turn E) (m : List (ConnectionId × V))
      → IsClosed t
      → dropped c t m ≡ Registry.drop c m
  unfolding dropped
  dropped-closed c t m (_, _, e) = ap (λ u. dropped c u m) e

  -- With a grace period `g`: whichever of the two connections the builder makes, if its task is
  -- woken at `w` with the token cancelled, and again at a time `v.now` at least `g` later, then
  -- the server's `connections`, where no id stands twice, have lost its entry. The wake-ups before
  -- `w` are no later than `w`.
  pub serve_connection-removes :
      (is_http1_available : Bool) (with_upgrades plain : List (Wake E)) (g : Duration)
      (age : Option Duration) (c : OnConnectionClose) (m : List (ConnectionId × V))
      (ws₁ : List (Wake E)) (w : Wake E) (ws₂ : List (Wake E)) (v : Wake E) (ws₃ : List (Wake E))
      → (if is_http1_available then with_upgrades else plain) ≡ ws₁ ++ (w ∷ ws₂ ++ v ∷ ws₃)
      → All (λ u. u.now ≤ w.now) ws₁
      → w.cancelled ≡ true
      → w.now + g ≤ v.now
      → Distinct (keys m)
      → lookup c.id (serve_connection is_http1_available with_upgrades plain age (some g) c m).1
        ≡ none
  unfolding serve_connection Registry.drop
  serve_connection-removes is_http1_available with_upgrades plain g age c m ws₁ w ws₂ v ws₃ chosen
        early cancelled late d =
      let gone = dropped-closed c _ m (
        subst (λ ws. IsClosed (drive_connection (some g) age ws)) (sym chosen)
          (cancelled-IsClosed g age ws₁ w ws₂ v ws₃ early cancelled late)) in
      ap (lookup c.id) gone ∙ lookup-remove c.id m d
