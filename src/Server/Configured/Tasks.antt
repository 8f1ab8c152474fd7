-- ===== src/Server/Configured/Tasks.antt =====
-- What holds of all tasks, when one ends or is taken out.
use sui_http.Prelude.{
  ℕ, zero, suc, ◌≡◌, ap, subst, ◌==◌, some, List, [], ◌∷◌, Run, All, Bool-cases, Option-cases, inl,
  inr, arith,
}
use mathlib.Core.Option.{some-injective}
use sui_http.Connection.Info.{ConnectionId}
use sui_http.Server.Tasks.{Handler, in_progress, ended, finish, take_at, keep}

pub All-finish :
    {A Certs : Type 0} (P : Handler A Certs → Type 0) (id : ConnectionId) (r : Run (Unit {0}))
    (hs : List (Handler A Certs))
    → P (ended r)
    → All P hs
    → All P (finish id r hs)
unfolding finish
All-finish P id r [] e h = tt
All-finish P id r (ended r' ∷ hs) e (h, t) = (h, All-finish P id r hs e t)
All-finish P id r (in_progress w ∷ hs) e (h, t) =
    elim (Bool-cases (w.on_connection_close.id == id)) [
      | inl same ↦ rw same (e, t)
      | inr other ↦ rw other (h, All-finish P id r hs e t)
    ]

pub All-take_at :
    {X : Type 0} (P : X → Type 0) (k : ℕ) (x : X) (xs rest : List X)
    → take_at k xs ≡ some (x, rest)
    → All P xs
    → P x × All P rest
unfolding take_at keep
All-take_at P k x [] rest g h = absurd (grind arith)
All-take_at P zero x (y ∷ xs) rest g (h, t) =
    let q = some-injective (y, xs) (x, rest) g in
    (subst P (ap (λ z. z.0) q) h, subst (All P) (ap (λ z. z.1) q) t)
All-take_at P (suc k) x (y ∷ xs) rest g (h, t) = elim (Option-cases (take_at k xs)) [
  | inl e ↦ absurd (grind arith)
  | inr ((z, zs), e) ↦
      let q = some-injective (z, y ∷ zs) (x, rest) (rw e at g) in
      let (here, left) = All-take_at P k z xs zs e t in
      (subst P (ap (λ p. p.0) q) here, subst (All P) (ap (λ p. p.1) q) (h, left))
]
