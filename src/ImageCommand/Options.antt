-- ===== src/ImageCommand/Options.antt =====
-- Reasoning about the loop over the options of src/resolve_image_parameters.cpp.
use mathlib.Core.Path.{subst}
use andor2k.Base.{◌⊎◌, ℕ, ◌≡◌, refl, List, [], ◌∷◌, inl, inr, Option-cases}
use andor2k.Base.Text.{Bytes}
use andor2k.Params.{Platform, AndorParameters}
use andor2k.ImageCommand.{
  ImageOption, Outcome, stop, next, option_of, apply_option, resolve_options,
}

-- The parameters that an outcome carries.
abbrev pub params_of : Outcome → AndorParameters
params_of (stop c q) = q
params_of (next q) = q

pub Outcome-cases :
    (r : Outcome)
    → ((c : ℕ) × (q : AndorParameters) × (r ≡ stop c q)) ⊎ ((q : AndorParameters) × (r ≡ next q))
Outcome-cases (stop c q) = inl (c, q, refl)
Outcome-cases (next q) = inr (q, refl)

-- What every option keeps, the loop keeps, however it ends.
pub resolve_options_inv {ℓ} :
    (P : AndorParameters → Type ℓ) (pf : Platform)
    → ((o : ImageOption) (a : Bytes) (p : AndorParameters)
        → P p
        → P (params_of (apply_option pf o a p)))
    → (ts : List Bytes) (p : AndorParameters) → P p
    → P (resolve_options pf ts p).1
unfolding resolve_options
resolve_options_inv P pf keep [] p h = h
resolve_options_inv P pf keep (t ∷ []) p h = elim (Option-cases (option_of t)) [
  | inl e ↦ rw (e, resolve_options) h
  | inr (o, e) ↦ rw (e, resolve_options) h
]
resolve_options_inv P pf keep (t ∷ a ∷ ts) p h = elim (Option-cases (option_of t)) [
  | inl e ↦ rw (e, resolve_options) (resolve_options_inv P pf keep (a ∷ ts) p h)
  | inr (o, e) ↦ elim (Outcome-cases (apply_option pf o a p)) [
    | inl (c, q, r) ↦ rw (e, resolve_options, r) (subst (λ x. P (params_of x)) r (keep o a p h))
    | inr (q, r) ↦
        rw (e, resolve_options, r)
          (resolve_options_inv P pf keep ts q (subst (λ x. P (params_of x)) r (keep o a p h)))
  ]
]
