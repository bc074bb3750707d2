-- ===== src/CommandLine/Accepted.antt =====
-- Which arguments src/cmd_parser.cpp accepts.
use mathlib.Core.Path.{subst}
use andor2k.ImageCommand.Options.{Outcome-cases}
use andor2k.Base.{
  leb, ltb, Bool-cases, ◌≡◌, ◌↔◌, ◌<◌, inl, inr, refl, true, false, List, [], ◌∷◌, Option, none,
  some, arith, ℤ, pos, length, to_int32, Option-cases, ltb_ℤ, ◌≤ℤ◌, sym, ap, ◌∙◌,
}
use andor2k.Base.Text.{Bytes, Conversion, strtol}
use andor2k.Params.{Platform, AndorParameters, Float}
use andor2k.ImageCommand.{
  ImageOption, nimages, filename, kind, exposure, object, filter, ar_tries, bin, hbin, vbin, hstart,
  hend, vstart, vend, Outcome, stop, next,
}
use andor2k.CommandLine.{
  is_none, stored, int_of, option_of, apply_option, float_gt_zero, resolve_cmd_parameters,
  set_nimages, set_exposure,
}

-- A text from which `strtol` converts a number.
abbrev IsNumber : Bytes → Type 0
IsNumber a = (c : Conversion) × (strtol a ≡ some c)

-- A text that an option takes: a number, that of the images being positive as an `int`, a string that
-- fits its array, or a positive exposure.
abbrev pub IsValue : Platform → ImageOption → Bytes → Type 0
IsValue pf nimages a = (c : Conversion) × (strtol a ≡ some c) × (pos 1 ≤ℤ to_int32 c.value)
IsValue pf filename a = length a < 128
IsValue pf kind a = length a < 16
IsValue pf exposure a = (x : Float) × (pf.strtod a ≡ some x) × (float_gt_zero x ≡ true)
IsValue pf object a = Unit {0}
IsValue pf filter a = Unit {0}
IsValue pf ar_tries a = Unit {0}
IsValue pf _ a = IsNumber a

-- Arguments that are options with a text that they take, and others.
pub data Accepted (pf : Platform) : List Bytes → Type 0 where
  done : Accepted pf []
  skipped :
      {t : Bytes} {ts : List Bytes} → option_of t ≡ none → Accepted pf ts → Accepted pf (t ∷ ts)
  taken :
      {t a : Bytes} {ts : List Bytes} (o : ImageOption)
      → option_of t ≡ some o
      → IsValue pf o a
      → Accepted pf ts
      → Accepted pf (t ∷ a ∷ ts)

abbrev or_else : Option ImageOption → ImageOption → ImageOption
or_else none o = o
or_else (some o') o = o'

-- An option goes on exactly with a text that it takes, and otherwise returns 1.
abbrev Decides : Platform → ImageOption → Bytes → Outcome → Type 0
Decides pf o a (next q) = IsValue pf o a
Decides pf o a (stop c q) = (c ≡ 1) × (IsValue pf o a → ⊥)

at_least : (z : ℤ) → ltb_ℤ z (pos 1) ≡ false → pos 1 ≤ℤ z
at_least z e = ground arith

too_small : (z : ℤ) → ltb_ℤ z (pos 1) ≡ true → pos 1 ≤ℤ z → ⊥
too_small z e h = ground arith

module _ (pf : Platform) (a : Bytes) where
  stored-Decides :
      (q : AndorParameters) (r : Option Conversion) → strtol a ≡ r → Decides pf bin a (stored r q)
  stored-Decides q none e = (refl, λ v. ground arith)
  stored-Decides q (some c) e = (c, e)

  nimages-Decides :
      (p : AndorParameters) (r : Option Conversion)
      → strtol a ≡ r
      → Decides pf nimages a (set_nimages (int_of r) (is_none r) p)
  unfolding set_nimages
  nimages-Decides p none e = (refl, λ v. ground arith)
  nimages-Decides p (some c) e = elim (Bool-cases (ltb_ℤ (to_int32 c.value) (pos 1))) [
    | inl t ↦
        rw (t, set_nimages)
          (
            refl,
            λ v.
                too_small (to_int32 c.value) t
                  (subst (λ z. pos 1 ≤ℤ z) (ap int_of (sym v.1 ∙ e)) v.2),
          )
    | inr f ↦ elim (Bool-cases (ltb_ℤ (pos 1) (to_int32 c.value))) [
      | inl t ↦ rw (f, t, set_nimages) (c, e, at_least (to_int32 c.value) f)
      | inr u ↦ rw (f, u, set_nimages) (c, e, at_least (to_int32 c.value) f)
    ]
  ]

  exposure-Decides :
      (p : AndorParameters) (r : Option Float)
      → pf.strtod a ≡ r
      → Decides pf exposure a (set_exposure r p)
  unfolding set_exposure
  exposure-Decides p none e = (refl, λ v. ground arith)
  exposure-Decides p (some x) e = elim (Bool-cases (float_gt_zero x)) [
    | inl t ↦ rw (t, set_exposure) (x, e, t)
    | inr f ↦ rw (f, set_exposure) (refl, λ v. ground arith)
  ]

  filename-Decides : (p : AndorParameters) → Decides pf filename a (apply_option pf filename a p)
  unfolding apply_option
  filename-Decides p = elim (Bool-cases (leb 128 (length a))) [
    | inl t ↦ rw (t, apply_option) (refl, λ v. ground arith)
    | inr f ↦ rw (f, apply_option) (ground arith)
  ]

  kind-Decides : (p : AndorParameters) → Decides pf kind a (apply_option pf kind a p)
  unfolding apply_option
  kind-Decides p = elim (Bool-cases (ltb 15 (length a))) [
    | inl t ↦ rw (t, apply_option) (refl, λ v. ground arith)
    | inr f ↦ rw (f, apply_option) (ground arith)
  ]

  apply_option-Decides :
      (o : ImageOption) (p : AndorParameters) → Decides pf o a (apply_option pf o a p)
  unfolding apply_option
  apply_option-Decides nimages p = nimages-Decides p (strtol a) refl
  apply_option-Decides filename p = filename-Decides p
  apply_option-Decides kind p = kind-Decides p
  apply_option-Decides exposure p = exposure-Decides p (pf.strtod a) refl
  apply_option-Decides object p = tt
  apply_option-Decides filter p = tt
  apply_option-Decides ar_tries p = tt
  apply_option-Decides bin p = stored-Decides _ (strtol a) refl
  apply_option-Decides hbin p = stored-Decides _ (strtol a) refl
  apply_option-Decides vbin p = stored-Decides _ (strtol a) refl
  apply_option-Decides hstart p = stored-Decides _ (strtol a) refl
  apply_option-Decides hend p = stored-Decides _ (strtol a) refl
  apply_option-Decides vstart p = stored-Decides _ (strtol a) refl
  apply_option-Decides vend p = stored-Decides _ (strtol a) refl

module _ (pf : Platform) where
  -- What a derivation for arguments that begin with an option holds.
  Accepted-option :
      {t a : Bytes} {ts : List Bytes} (o : ImageOption)
      → option_of t ≡ some o
      → Accepted pf (t ∷ a ∷ ts)
      → IsValue pf o a × Accepted pf ts
  Accepted-option o e (skipped e' _) = absurd (ground arith)
  Accepted-option {a = a} o e (taken o' e' v rest) =
      (subst (λ x. IsValue pf (or_else x o) a) (sym e' ∙ e) v, rest)

  Accepted-other :
      {t : Bytes} {ts : List Bytes} → option_of t ≡ none → Accepted pf (t ∷ ts) → Accepted pf ts
  Accepted-other e (skipped _ rest) = rest
  Accepted-other e (taken _ e' _ _) = absurd (ground arith)

  returns_zero :
      (ts : List Bytes) (p : AndorParameters)
      → Accepted pf ts
      → (resolve_cmd_parameters pf ts p).0 ≡ 0
  unfolding resolve_cmd_parameters
  returns_zero [] p h = refl
  returns_zero (t ∷ []) p (skipped e _) = rw (e, resolve_cmd_parameters) refl
  returns_zero (t ∷ a ∷ ts) p h = elim (Option-cases (option_of t)) [
    | inl e ↦ rw (e, resolve_cmd_parameters) (returns_zero (a ∷ ts) p (Accepted-other e h))
    | inr (o, e) ↦
        let (v, rest) = Accepted-option o e h in
        elim (Outcome-cases (apply_option pf o a p)) [
          | inr (q, r) ↦ rw (e, resolve_cmd_parameters, r) (returns_zero ts q rest)
          | inl (c, q, r) ↦ absurd ((subst (Decides pf o a) r (apply_option-Decides pf a o p)).1 v)
        ]
  ]

  status-Accepted :
      (ts : List Bytes) (p : AndorParameters)
      → (resolve_cmd_parameters pf ts p).0 ≡ 0
      → Accepted pf ts
  unfolding resolve_cmd_parameters
  status-Accepted [] p h = done
  status-Accepted (t ∷ []) p h = elim (Option-cases (option_of t)) [
    | inl e ↦ skipped e done
    | inr (o, e) ↦ absurd (ground arith)
  ]
  status-Accepted (t ∷ a ∷ ts) p h = elim (Option-cases (option_of t)) [
    | inl e ↦ skipped e (status-Accepted (a ∷ ts) p (rw (e, resolve_cmd_parameters) at h))
    | inr (o, e) ↦ elim (Outcome-cases (apply_option pf o a p)) [
      | inr (q, r) ↦
          taken o e (subst (Decides pf o a) r (apply_option-Decides pf a o p))
            (status-Accepted ts q (rw (e, resolve_cmd_parameters, r) at h))
      | inl (c, q, r) ↦
          let one = (subst (Decides pf o a) r (apply_option-Decides pf a o p)).0 in
          absurd (ground arith)
    ]
  ]

  -- The status is 0 exactly if the arguments are options, each with a text that it takes, and others
  -- that are no options, whatever the parameters were before.
  pub resolve_cmd_parameters_iff :
      (ts : List Bytes) (p : AndorParameters)
      → ((resolve_cmd_parameters pf ts p).0 ≡ 0) ↔ Accepted pf ts
  resolve_cmd_parameters_iff ts p = (status-Accepted ts p, returns_zero ts p)
