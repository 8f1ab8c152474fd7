-- ===== src/System/Works.antt =====
-- The handler in progress for a connection, beside its entry of `connections`.
use sui_http.Prelude.{
  ◌≡◌, sym, ap, ◌∙◌, subst, ◌==◌, Bool, Option, none, some, List, [], ◌∷◌, All, arith, Bool-cases,
  inl, inr,
}
use mathlib.Core.Option.{some-injective}
use sui_http.Config.{Config}
use sui_http.Connection.Info.{ConnectionId}
use sui_http.Connection.Registry.{keys, Absent}
use sui_http.Server
use sui_http.Server.{Server}
use sui_http.Server.Tasks.{Handler, in_progress, ended, Work}
use sui_http.Server.Steps.{Reaches}
use sui_http.Server.Tracked.{Tracked, Reaches-Tracked}
use sui_http.Server.Tracked.Entries.{in_work, keys-entries}
use sui_http.Server.Configured.{IsConfigured, Configured, Reaches-Configured}
use sui_http.System.{work_of}

module _ {A Certs : Type 0} where
  work_of-none :
      (id : ConnectionId) (hs : List (Handler A Certs))
      → work_of id hs ≡ none
      → Absent id (keys (in_work hs))
  unfolding work_of
  work_of-none id [] e = tt
  work_of-none id (ended r ∷ hs) e = work_of-none id hs e
  work_of-none id (in_progress w ∷ hs) e = elim (Bool-cases (w.on_connection_close.id == id)) [
    | inl same ↦ absurd (ground arith)
    | inr other ↦
        let left : work_of id hs ≡ none = rw other at e in (ground arith, work_of-none id hs left)
  ]

  All-work_of :
      (P : Handler A Certs → Type 0) (id : ConnectionId) (hs : List (Handler A Certs))
      (w : Work A Certs)
      → work_of id hs ≡ some w
      → All P hs
      → P (in_progress w)
  unfolding work_of
  All-work_of P id [] w e all = absurd (ground arith)
  All-work_of P id (ended r ∷ hs) w e (h, all) = All-work_of P id hs w e all
  All-work_of P id (in_progress v ∷ hs) w e (h, all) =
      elim (Bool-cases (v.on_connection_close.id == id)) [
        | inl same ↦
            let there : some v ≡ some w = rw same at e in
            subst (λ u. P (in_progress u)) (some-injective v w there) h
        | inr other ↦
            let there : work_of id hs ≡ some w = rw other at e in All-work_of P id hs w there all
      ]

module _ {A I S Certs E : Type 0} (f : S → Option Certs) (config : Config) (tls : Bool)
    (local_addr : A) (s : Server A I S Certs E)
    (reached : Reaches f (Server.start config tls local_addr) s) (id : ConnectionId) where
  -- Without a handler in progress there is no entry.
  pub idle-Absent : work_of id s.connection_handlers ≡ none → Absent id (keys s.connections)
  unfolding Tracked
  idle-Absent e =
      let same = (Reaches-Tracked f config tls local_addr s reached).0 in
      subst (Absent id) (ap keys (sym same) ∙ keys-entries s.connections)
        (work_of-none id s.connection_handlers e)

  -- A handler in progress has the limits of the configuration.
  pub work_of-limits :
      (w : Work A Certs)
      → work_of id s.connection_handlers ≡ some w
      → (w.max_connection_age ≡ config.max_connection_age)
        × (w.max_connection_age_grace ≡ config.max_connection_age_grace)
  unfolding Configured
  work_of-limits w there =
      let all = (Reaches-Configured config local_addr f tls s reached).2 in
      let h = All-work_of (IsConfigured config local_addr) id s.connection_handlers w there all in
      (h.1, h.2)
