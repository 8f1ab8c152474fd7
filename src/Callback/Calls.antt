-- ===== src/Callback/Calls.antt =====
-- The calls that a handler receives, as a list.
use sui_http.Prelude.{◌≡◌, refl, ap, Option, List, [], ◌∷◌, ◌++◌}
use sui_http.Callback.Handler.{RequestHandler}

pub data Call (D T E : Type 0) : Type 0 where
  chunk : D → Call D T E
  end_of_stream : Option T → Call D T E
  error : E → Call D T E

module _ {D T E : Type 0} where
  abbrev pub chunks : List (Call D T E) → List D
  chunks [] = []
  chunks (chunk d ∷ l) = d ∷ chunks l
  chunks (_ ∷ l) = chunks l

  abbrev pub ends : List (Call D T E) → List (Option T)
  ends [] = []
  ends (end_of_stream t ∷ l) = t ∷ ends l
  ends (_ ∷ l) = ends l

  abbrev pub errors : List (Call D T E) → List E
  errors [] = []
  errors (error e ∷ l) = e ∷ errors l
  errors (_ ∷ l) = errors l

  pub chunks-append : (k l : List (Call D T E)) → chunks (k ++ l) ≡ chunks k ++ chunks l
  chunks-append [] l = refl
  chunks-append (chunk d ∷ k) l = ap (◌∷◌ d) (chunks-append k l)
  chunks-append (_ ∷ k) l = chunks-append k l

  pub ends-append : (k l : List (Call D T E)) → ends (k ++ l) ≡ ends k ++ ends l
  ends-append [] l = refl
  ends-append (end_of_stream t ∷ k) l = ap (◌∷◌ t) (ends-append k l)
  ends-append (_ ∷ k) l = ends-append k l

  pub errors-append : (k l : List (Call D T E)) → errors (k ++ l) ≡ errors k ++ errors l
  errors-append [] l = refl
  errors-append (error e ∷ k) l = ap (◌∷◌ e) (errors-append k l)
  errors-append (_ ∷ k) l = errors-append k l

module _ {H D T E : Type 0} (on : RequestHandler H D T E) where
  abbrev pub tell : H → List (Call D T E) → H
  tell h [] = h
  tell h (chunk d ∷ l) = tell (on.on_body_chunk h d) l
  tell h (end_of_stream t ∷ l) = tell (on.on_end_of_stream h t) l
  tell h (error e ∷ l) = tell (on.on_body_error h e) l

  pub tell-append : (h : H) (k l : List (Call D T E)) → tell h (k ++ l) ≡ tell (tell h k) l
  tell-append h [] l = refl
  tell-append h (chunk d ∷ k) l = tell-append (on.on_body_chunk h d) k l
  tell-append h (end_of_stream t ∷ k) l = tell-append (on.on_end_of_stream h t) k l
  tell-append h (error e ∷ k) l = tell-append (on.on_body_error h e) k l
