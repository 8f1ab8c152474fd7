-- ===== src/Server/Spec/Shrinks.antt =====
-- Nobody connects to a server that shuts down.
use sui_http.Prelude.{ℕ, ◌≡◌, ◌≢◌, sym, ◌∙◌, Option, some, List, ◌==◌, Bool-cases, inl, inr, arith}
use mathlib.Core.Option.{none-ne-some}
use sui_http.Connection.Info.{ConnectionId}
use sui_http.Connection.Registry.{lookup}
use sui_http.Server.{Server, draining}
use sui_http.Server.Steps.{Reaches}
use sui_http.Server.Spec.{
  Life, running, View, Label, Change, asks, told, declines, opens, goes, stays, shuts, ends,
  crashes, Changes, none_yet, more, labels, view,
}
use sui_http.Server.Spec.Refines.{Reaches-Changes}
use sui_http.Server.Tracked.{Tracked}
use sui_http.Server.Tracked.Entries.{entries}

-- It is `life`'s turn no more: connections only go.
abbrev Late : Life → Type 0
Late life = life ≢ running

module _ {A Certs : Type 0} where
  abbrev Within : View A Certs → View A Certs → Type 0
  Within w v =
      (j : ConnectionId) (x : A × Option Certs) → w.connected j ≡ some x → v.connected j ≡ some x

  same-Within :
      (v w : View A Certs) → ((j : ConnectionId) → w.connected j ≡ v.connected j) → Within w v
  same-Within v w same j x h = sym (same j) ∙ h

  Change-Within :
      (v w : View A Certs) (l : Label) → Change v w l → Late v.life → Late w.life × Within w v
  Change-Within v w _ (asks a) l = (λ r. l (sym a.same_life ∙ r), same-Within v w a.same_connected)
  Change-Within v w _ (told id a) l =
      (λ r. l (sym a.same_life ∙ r), same-Within v w a.same_connected)
  Change-Within v w _ (declines id a) l =
      (λ r. l (sym a.same_life ∙ r), same-Within v w a.same_connected)
  Change-Within v w _ (opens id address certs r free a) l = absurd (l r)
  Change-Within v w _ (goes id a) l = (
    λ r. l (sym a.same_life ∙ r),
    λ j x h.
        let same = a.same_connected j in
        elim (Bool-cases (id == j)) [
          | inl e ↦ absurd (none-ne-some x (sym (rw e at same) ∙ h))
          | inr e ↦ sym (rw e at same) ∙ h
        ],
  )
  Change-Within v w _ (stays a) l = (λ r. l (sym a.same_life ∙ r), same-Within v w a.same_connected)
  Change-Within v w _ (shuts r asked a) l = absurd (l r)
  Change-Within v w _ (ends r nobody a) l =
      (λ r'. absurd (grind (arith, a.same_life)), same-Within v w a.same_connected)
  Change-Within v w _ (crashes r a) l = absurd (l r)

  Changes-Within :
      (v w : View A Certs) (ls : List Label)
      → Changes v ls w
      → Late v.life
      → Late w.life × Within w v
  Changes-Within v _ _ none_yet l = (l, λ j x h. h)
  Changes-Within v w _ (more {w = u} {l = label} {ls = ls} r c) l =
      let (l', there) = Changes-Within v u ls r l in
      let (l'', last) = Change-Within u w label c l' in (l'', λ j x h. there j x (last j x h))

-- From the moment a server drains, where `connections` and the handlers agree: whoever is connected
-- later was connected then, under the same id, with the same address and certificates.
pub draining-Within :
    {A I S Certs E : Type 0} (f : S → Option Certs) (deadline : ℕ) (s t : Server A I S Certs E)
    (id : ConnectionId) (x : A × Option Certs)
    → Tracked s
    → s.phase ≡ draining deadline
    → Reaches f s t
    → lookup id (entries t.connections) ≡ some x
    → lookup id (entries s.connections) ≡ some x
draining-Within f deadline s t id x h p r there =
    (Changes-Within (view s) (view t) (labels r) (Reaches-Changes f s t r h)
        (λ q. grind (arith, p, q))).1
      id x there
