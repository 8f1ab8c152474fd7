-- ===== src/Prelude/Http.antt =====
-- The `http` crate as the source uses it: a header map with `get` and `insert`, and
-- `HeaderValue::to_str`, which returns the text of a value of visible ASCII and tabs only.
use Prim.Native.Nat.{ℕ, ◌≤◌}
use Prim.Native.String.{String}
use mathlib.Core.Path.{◌≡◌}
use mathlib.Core.Logic.{◌⊎◌}
use mathlib.Core.Option.{Option, none, some}
use text.Mathlib.Text.{◌==◌}
use sui_http.Prelude.Tests.{if◌then◌else◌}
use sui_http.Prelude.Lists.{All}
use sui_http.Prelude.Str.{Bytes}

-- A byte that `to_str` lets through.
abbrev pub IsVisible : ℕ → Type 0
IsVisible b = ((32 ≤ b) × (b ≤ 126)) ⊎ (b ≡ 9)

pub record Http : Type 1 where
  pub HeaderMap : Type 0
  pub new : HeaderMap
  pub get : HeaderMap → String → Option Bytes
  pub insert : String → Bytes → HeaderMap → HeaderMap
  pub get-new : (k : String) → get new k ≡ none
  pub get-insert :
      (k j : String) (v : Bytes) (m : HeaderMap)
      → get (insert k v m) j ≡ (if k == j then some v else get m j)
  pub to_str : Bytes → Option Bytes
  pub to_str_sound : (v s : Bytes) → to_str v ≡ some s → (s ≡ v) × All IsVisible v
  pub to_str_complete : (v : Bytes) → All IsVisible v → to_str v ≡ some v

-- `http::Response`: the parts that the source reads and sets.
pub record Response (M B : Type 0) : Type 0 where
  pub status : ℕ
  pub headers : M
  pub body : B

-- `Response::map`.
abbrev pub map_body : {M B C : Type 0} → (B → C) → Response M B → Response M C
map_body f r = record { status = r.status; headers = r.headers; body = f r.body }
