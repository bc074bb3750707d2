-- ===== src/CommandLine/Kept.antt =====
-- What src/cmd_parser.cpp keeps, and where it does what src/resolve_image_parameters.cpp does.
use mathlib.Core.Path.{subst}
use andor2k.Base.{
  ℕ, ◌-◌, ◌≡◌, ◌<◌, List, [], ◌∷◌, inl, inr, arith, length, drop, length-append, Option-cases, zero,
  suc,
}
use andor2k.Base.Text.{Bytes}
use andor2k.Params.{Platform, AndorParameters}
use andor2k.ImageCommand.{ImageOption, nimages, filename, kind}
use andor2k.ImageCommand.Options.{Outcome-cases, params_of}
use andor2k.ImageCommand.Buffers.{IsBounded}
use andor2k.CommandLine.{option_of, apply_option, resolve_cmd_parameters, copied_over}

-- What every option keeps, the loop keeps, however it ends.
resolve_inv {ℓ} :
    (P : AndorParameters → Type ℓ) (pf : Platform)
    → ((o : ImageOption) (a : Bytes) (p : AndorParameters)
        → P p
        → P (params_of (apply_option pf o a p)))
    → (ts : List Bytes) (p : AndorParameters) → P p
    → P (resolve_cmd_parameters pf ts p).1
unfolding resolve_cmd_parameters
resolve_inv P pf keep [] p h = h
resolve_inv P pf keep (t ∷ []) p h = elim (Option-cases (option_of t)) [
  | inl e ↦ rw (e, resolve_cmd_parameters) h
  | inr (o, e) ↦ rw (e, resolve_cmd_parameters) h
]
resolve_inv P pf keep (t ∷ a ∷ ts) p h = elim (Option-cases (option_of t)) [
  | inl e ↦ rw (e, resolve_cmd_parameters) (resolve_inv P pf keep (a ∷ ts) p h)
  | inr (o, e) ↦ elim (Outcome-cases (apply_option pf o a p)) [
    | inl (c, q, r) ↦
        rw (e, resolve_cmd_parameters, r) (subst (λ x. P (params_of x)) r (keep o a p h))
    | inr (q, r) ↦
        rw (e, resolve_cmd_parameters, r)
          (resolve_inv P pf keep ts q (subst (λ x. P (params_of x)) r (keep o a p h)))
  ]
]

length-drop : (n : ℕ) (s : Bytes) → length (drop n s) ≡ length s - n
length-drop zero s = omega arith
length-drop (suc n) [] = omega arith
length-drop (suc n) (c ∷ s) = omega (arith, length-drop n s)

copied_over_fits :
    (n : ℕ) (s array : Bytes) → length s < n → length array < n → length (copied_over s array) < n
copied_over_fits n s array h k =
    omega (arith, length-append s (drop (length s) array), length-drop (length s) array)

apply_option-IsBounded :
    (pf : Platform) (o : ImageOption) (a : Bytes) (p : AndorParameters)
    → IsBounded p
    → IsBounded (params_of (apply_option pf o a p))
unfolding apply_option
apply_option-IsBounded pf filename a p b = ground (arith, copied_over_fits 128 a p.image_filename)
apply_option-IsBounded pf kind a p b = ground (arith, copied_over_fits 16 a p.image_type)
apply_option-IsBounded pf nimages a p b = ground arith
apply_option-IsBounded pf o a p b = ground arith

-- Whatever the arguments and the status, no string outgrows its array.
pub resolve_cmd_parameters-IsBounded :
    (pf : Platform) (ts : List Bytes) (p : AndorParameters)
    → IsBounded p
    → IsBounded (resolve_cmd_parameters pf ts p).1
resolve_cmd_parameters-IsBounded pf = resolve_inv IsBounded pf (apply_option-IsBounded pf)
