-- ===== src/Server/Loop/Runs.antt =====
-- Whatever happens to a server that shuts down, it ends in time.
use sui_http.Prelude.{ℕ, Option, List, ◌∷◌, ◌++◌}
use sui_http.Config.{Config}
use sui_http.Server
use sui_http.Server.{Server, Phase, aborting, draining, forcing, crashed}
use sui_http.Server.Loop.{token_cancelled, Event, selects, wakes}

module _ {A I S Certs E : Type 0} (f : S → Option Certs) where
  module _ (t₁ t₂ t₃ : ℕ) (es₁ es₂ es₃ es₄ es₅ : List (Event A I S E)) where
    -- The loop leaves for the shutdown.
    abbrev pub begun : List (Event A I S E)
    begun = es₁ ++ (selects token_cancelled ∷ es₂)

    -- It is polled at `t₁`, and later on at `t₂`.
    abbrev pub forced : List (Event A I S E)
    forced = begun ++ ((wakes t₁ ∷ es₃) ++ (wakes t₂ ∷ es₄))

    abbrev pub whole : List (Event A I S E)
    whole = forced ++ (wakes t₃ ∷ es₅)
