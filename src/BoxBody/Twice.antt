-- ===== src/BoxBody/Twice.antt =====
-- A body is boxed once.
use mathlib.Core.HLevel.{hedberg}
use mathlib.Core.Path.{subst_refl}
use sui_http.Prelude.{◌≡◌, ◌≢◌, refl, ap, ◌∙◌, ◌⊎◌, inl, inr, ok, err, done, subst}
use sui_http.BoxBody.{Types, downcast_mut, try_downcast, boxed}

module _ (u : Types) where
  decided :
      (t k : u.Code) (v : u.El k) (d : Dec (k ≡ t))
      → u.same_type k t ≡ d
      → ((p : k ≡ t) × (try_downcast u t k v ≡ done (ok (subst u.El p v))))
        ⊎ ((k ≢ t) × (try_downcast u t k v ≡ done (err v)))
  unfolding try_downcast downcast_mut
  decided t k v (yes p) e = inl (p, rw (e, try_downcast, downcast_mut) refl)
  decided t k v (no n) e = inr (n, rw (e, try_downcast, downcast_mut) refl)

  -- `try_downcast` returns `Ok` exactly where the value has the wanted type, and then the value
  -- itself; else it gives the value back in `Err`. It never panics.
  pub try_downcast_outcome :
      (t k : u.Code) (v : u.El k)
      → ((p : k ≡ t) × (try_downcast u t k v ≡ done (ok (subst u.El p v))))
        ⊎ ((k ≢ t) × (try_downcast u t k v ≡ done (err v)))
  try_downcast_outcome t k v = decided t k v (u.same_type k t) refl

  boxed-box_body : (b : u.El u.box_body) → boxed u u.box_body b ≡ done b
  unfolding boxed
  boxed-box_body b = elim (try_downcast_outcome u.box_body u.box_body b) [
    | inl (p, e) ↦ rw e (
        ap done (
          ap (λ q. subst u.El q b) (hedberg u.same_type u.box_body u.box_body p refl)
          ∙ subst_refl u.El b))
    | inr (n, e) ↦ absurd (n refl)
  ]

  -- `boxed` never panics. A body that is a `BoxBody` comes back as it is, and any other body is
  -- converted once; to box the result again changes nothing.
  pub boxed-boxed :
      (k : u.Code) (body : u.El k)
      → (b : u.El u.box_body) × (boxed u k body ≡ done b)
        × (boxed u u.box_body b ≡ done b)
        × (((p : k ≡ u.box_body) × (b ≡ subst u.El p body))
            ⊎ ((k ≢ u.box_body) × (b ≡ u.box_unsync k body)))
  unfolding boxed
  boxed-boxed k body = elim (try_downcast_outcome u.box_body k body) [
    | inl (p, e) ↦ (subst u.El p body, rw e refl, boxed-box_body _, inl (p, refl))
    | inr (n, e) ↦ (u.box_unsync k body, rw e refl, boxed-box_body _, inr (n, refl))
  ]
