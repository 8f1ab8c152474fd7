-- ===== src/Tests/Headers.antt =====
-- A header map for the tests, and the header values that they use.
use Prim.Native.String.{String}
use text.Mathlib.Text.{◌==◌}
use sui_http.Prelude.{
  ℕ, ◌≡◌, refl, inl, inr, Option, none, some, Bool, true, ◌&&◌, ◌||◌, leb, [], ◌∷◌, All, Bytes,
  if◌then◌else◌, arith, Bool-cases,
}
use sui_http.Prelude.Http.{Http, IsVisible}

abbrev visible : ℕ → Bool
visible b = (leb 32 b && leb b 126) || (leb b 9 && leb 9 b)

abbrev all_visible : Bytes → Bool
all_visible [] = true
all_visible (b ∷ s) = visible b && all_visible s

all_visible_sound : (s : Bytes) → all_visible s ≡ true → All IsVisible s
all_visible_sound [] h = tt
all_visible_sound (b ∷ s) h = (ground arith, all_visible_sound s (ground arith))

all_visible_complete : (s : Bytes) → All IsVisible s → all_visible s ≡ true
all_visible_complete [] h = refl
all_visible_complete (b ∷ s) (h, hs) = ground (arith, all_visible_complete s hs)

abbrev text_of : Bytes → Option Bytes
text_of v = if all_visible v then some v else none

pub text_of_sound : (v s : Bytes) → text_of v ≡ some s → (s ≡ v) × All IsVisible v
text_of_sound v s h = elim (Bool-cases (all_visible v)) [
  | inl e ↦ (grind arith, all_visible_sound v e)
  | inr e ↦ grind arith
]

pub text_of_complete : (v : Bytes) → All IsVisible v → text_of v ≡ some v
text_of_complete v h = rw (all_visible_complete v h)

abbrev pub http : Http
http = record {
  HeaderMap = String → Option Bytes;
  new = λ k. none;
  get = λ m k. m k;
  insert = λ k v m j. if k == j then some v else m j;
  get-new = λ k. refl;
  get-insert = λ k j v m. refl;
  to_str = text_of;
  to_str_sound = text_of_sound;
  to_str_complete = text_of_complete;
}
