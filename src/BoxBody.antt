-- ===== src/BoxBody.antt =====
-- src/body.rs. `std::any::Any` compares types by their ids: `Code` stands for the types that the
-- program puts in, `El` for the values of one.
pub mod Twice
use mathlib.Core.HLevel.{Discrete}
use sui_http.Prelude.{◌≡◌, Option, none, some, Result, ok, err, Run, run_map, unwrap, subst}

-- Types with ids, one of them `BoxBody`; `box_unsync` is `map_err` and `boxed_unsync`.
pub record Types : Type 1 where
  pub Code : Type 0
  pub El : Code → Type 0
  pub same_type : Discrete Code
  pub box_body : Code
  pub box_unsync : (k : Code) → El k → El box_body

module _ (u : Types) where
  -- `downcast_mut::<Option<T>>` on an `Option<K>`.
  unfoldable pub downcast_mut : (t k : u.Code) → Option (u.El k) → Option (Option (u.El t))
  downcast_mut t k v = elim (u.same_type k t) [
    | yes p ↦ some (subst (λ c. Option (u.El c)) p v)
    | no n ↦ none
  ]

  unfoldable pub try_downcast : (t k : u.Code) → u.El k → Run (Result (u.El t) (u.El k))
  unfolding downcast_mut
  try_downcast t k v = elim (downcast_mut t k (some v)) [
    | some k' ↦ run_map ok (unwrap k')
    | none ↦ run_map err (unwrap (some v))
  ]

  -- `unwrap_or_else` with the conversion.
  abbrev pub or_box : (k : u.Code) → Result (u.El u.box_body) (u.El k) → u.El u.box_body
  or_box k (ok b) = b
  or_box k (err body) = u.box_unsync k body

  unfoldable pub boxed : (k : u.Code) → u.El k → Run (u.El u.box_body)
  unfolding try_downcast
  boxed k body = run_map (or_box k) (try_downcast u.box_body k body)
