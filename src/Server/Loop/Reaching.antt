-- ===== src/Server/Loop/Reaching.antt =====
-- An event takes a server steps of `Step`, or leaves it as it is.
use sui_http.Prelude.{◌≡◌, refl, sym, subst, Option, List, [], ◌∷◌, inl, inr}
use sui_http.Server.{Server, Phase, serving, aborting, draining, forcing, stopped, crashed}
use sui_http.Server.Steps.{triggered, closed, shook, handler_ended, Reaches, here, step}
use sui_http.Server.Drain.{poll_shutdown}
use sui_http.Server.Drain.Ways.{Reaches-trans, poll_shutdown_way}
use sui_http.Server.Loop.{
  Branch, Event, selects, wakes, shakes, handler_ends, triggers, closes, select_in, act, run,
  IsFresh,
}
use sui_http.Server.Loop.Covers.{select-steps}

module _ {A I S Certs E : Type 0} (f : S → Option Certs) where
  -- At each event on the way.
  abbrev pub FreshAll : List (Event A I S E) → Server A I S Certs E → Type 0
  FreshAll [] s = Unit
  FreshAll (e ∷ es) s = IsFresh e s × FreshAll es (act f e s)

  select_in-Reaches :
      (s : Server A I S Certs E) (b : Branch A I) (ph : Phase)
      → s.phase ≡ ph
      → IsFresh {E = E} (selects b) s
      → Reaches f s (select_in f ph b s)
  unfolding select_in
  select_in-Reaches s b serving p fresh = elim (select-steps f s p b fresh) [
    | inl w ↦ step here w
    | inr q ↦ subst (Reaches f s) (sym q) here
  ]
  select_in-Reaches s b aborting p fresh = here
  select_in-Reaches s b forcing p fresh = here
  select_in-Reaches s b (draining deadline) p fresh = here
  select_in-Reaches s b stopped p fresh = here
  select_in-Reaches s b crashed p fresh = here

  pub act-Reaches :
      (e : Event A I S E) (s : Server A I S Certs E) → IsFresh e s → Reaches f s (act f e s)
  unfolding act poll_shutdown
  act-Reaches (selects b) s fresh = select_in-Reaches s b s.phase refl fresh
  act-Reaches (wakes now) s fresh = poll_shutdown_way f now s s.phase refl
  act-Reaches (shakes k now q) s fresh = step here (shook k now q refl)
  act-Reaches (handler_ends id r) s fresh = step here (handler_ended id r refl)
  act-Reaches triggers s fresh = step here (triggered refl)
  act-Reaches (closes id) s fresh = step here (closed id refl)

  pub run-Reaches :
      (es : List (Event A I S E)) (s : Server A I S Certs E)
      → FreshAll es s
      → Reaches f s (run f es s)
  unfolding run
  run-Reaches [] s fresh = here
  run-Reaches (e ∷ es) s (fresh, rest) =
      Reaches-trans f s (act f e s) _ (act-Reaches e s fresh) (run-Reaches es (act f e s) rest)
