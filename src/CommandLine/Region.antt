-- ===== src/CommandLine/Region.antt =====
-- Where src/cmd_parser.cpp does what the loop of src/resolve_image_parameters.cpp does.
use mathlib.Core.Path.{subst}
use andor2k.Base.{
  if◌then◌else◌, ◌≡◌, refl, ◌∙◌, Bool, true, false, List, [], ◌∷◌, Option, none, some, inl, inr,
  arith, Option-cases, All, if◌then◌else◌, if◌then◌else◌,
}
use andor2k.Base.Text.{Bytes, strtol, Conversion, starts_with, codes}
use andor2k.Params.{Platform, AndorParameters}
use andor2k.ImageCommand
use andor2k.ImageCommand.{
  ImageOption, nimages, filename, kind, exposure, object, filter, ar_tries, bin, hbin, vbin, hstart,
  hend, vstart, vend, Outcome, stop, next, is_image_mode, stored, and_mode, resolve_options,
}
use andor2k.ImageCommand.Options.{Outcome-cases}
use andor2k.CommandLine
use andor2k.CommandLine.{resolve_cmd_parameters}

-- The options for the region of the image and its binning, and what is no option.
abbrev pub is_region : Option ImageOption → Bool
is_region (some nimages) = false
is_region (some filename) = false
is_region (some kind) = false
is_region (some object) = false
is_region (some filter) = false
is_region (some exposure) = false
is_region (some ar_tries) = false
is_region _ = true

-- The two chains of tests, by the answers of the tests.
same_tests :
    (b1 b2 b3 b4 b5 b6 b7 b8 b9 b10 b11 b12 b13 b14 : Bool)
    → is_region (
        if b1
        then some nimages
        else if b2
        then some bin
        else if b3
        then some hbin
        else if b4
        then some vbin
        else if b5
        then some hstart
        else if b6
        then some hend
        else if b7
        then some vstart
        else if b8
        then some vend
        else if b9
        then some filename
        else if b10
        then some kind
        else if b11
        then some object
        else if b12
        then some filter
        else if b13
        then some exposure
        else if b14
        then some ar_tries
        else none)
      ≡ true
    → (if b1
        then some nimages
        else if b2
        then some bin
        else if b3
        then some hbin
        else if b4
        then some vbin
        else if b5
        then some hstart
        else if b6
        then some hend
        else if b7
        then some vstart
        else if b8
        then some vend
        else if b9
        then some filename
        else if b10
        then some kind
        else if b13
        then some exposure
        else none)
      ≡ (if b1
          then some nimages
          else if b2
          then some bin
          else if b3
          then some hbin
          else if b4
          then some vbin
          else if b5
          then some hstart
          else if b6
          then some hend
          else if b7
          then some vstart
          else if b8
          then some vend
          else if b9
          then some filename
          else if b10
          then some kind
          else if b11
          then some object
          else if b12
          then some filter
          else if b13
          then some exposure
          else if b14
          then some ar_tries
          else none)
same_tests true _ _ _ _ _ _ _ _ _ _ _ _ _ h = refl
same_tests false true _ _ _ _ _ _ _ _ _ _ _ _ h = refl
same_tests false false true _ _ _ _ _ _ _ _ _ _ _ h = refl
same_tests false false false true _ _ _ _ _ _ _ _ _ _ h = refl
same_tests false false false false true _ _ _ _ _ _ _ _ _ h = refl
same_tests false false false false false true _ _ _ _ _ _ _ _ h = refl
same_tests false false false false false false true _ _ _ _ _ _ _ h = refl
same_tests false false false false false false false true _ _ _ _ _ _ h = refl
same_tests false false false false false false false false true _ _ _ _ _ h = refl
same_tests false false false false false false false false false true _ _ _ _ h = refl
same_tests false false false false false false false false false false true _ _ _ h =
    absurd (ground arith)
same_tests false false false false false false false false false false false true _ _ h =
    absurd (ground arith)
same_tests false false false false false false false false false false false false true _ h = refl
same_tests false false false false false false false false false false false false false true h =
    absurd (ground arith)
same_tests false false false false false false false false false false false false false false h =
    refl

same_option :
    (t : Bytes)
    → is_region (ImageCommand.option_of t) ≡ true
    → CommandLine.option_of t ≡ ImageCommand.option_of t
unfolding ImageCommand.option_of CommandLine.option_of
same_option t h =
    same_tests (starts_with (codes "--nimages") t) (starts_with (codes "--bin") t)
      (starts_with (codes "--hbin") t) (starts_with (codes "--vbin") t)
      (starts_with (codes "--hstart") t) (starts_with (codes "--hend") t)
      (starts_with (codes "--vstart") t) (starts_with (codes "--vend") t)
      (starts_with (codes "--filename") t) (starts_with (codes "--type") t)
      (starts_with (codes "--object") t) (starts_with (codes "--filter") t)
      (starts_with (codes "--exposure") t) (starts_with (codes "--ar-tries") t) h

-- The two parsers do the same with such an option, and the read-out mode stays that of images.
apply_option-same :
    (pf : Platform) (o : ImageOption) (a : Bytes) (p : AndorParameters)
    → is_region (some o) ≡ true
    → is_image_mode p.read_out_mode ≡ true
    → CommandLine.apply_option pf o a p ≡ ImageCommand.apply_option pf o a p
unfolding ImageCommand.apply_option CommandLine.apply_option
apply_option-same pf vend a p r m = by_value (strtol a)
  where
    by_value :
        (c : Option Conversion)
        → stored c (record p { image_vend = ImageCommand.int_of c })
          ≡ and_mode (stored c (record p { image_vend = ImageCommand.int_of c }))
    by_value none = refl
    by_value (some c) = ground arith
apply_option-same pf bin a p r m = refl
apply_option-same pf hbin a p r m = refl
apply_option-same pf vbin a p r m = refl
apply_option-same pf hstart a p r m = refl
apply_option-same pf hend a p r m = refl
apply_option-same pf vstart a p r m = refl
apply_option-same pf _ a p r m = absurd (ground arith)

apply_option-mode :
    (pf : Platform) (o : ImageOption) (a : Bytes) (p q : AndorParameters)
    → is_region (some o) ≡ true
    → CommandLine.apply_option pf o a p ≡ next q
    → q.read_out_mode ≡ p.read_out_mode
unfolding CommandLine.apply_option
apply_option-mode pf o a p q r e = ground arith

abbrev pub OnlyRegion : List Bytes → Type 0
OnlyRegion ts = All (λ t. is_region (ImageCommand.option_of t) ≡ true) ts

-- Where every argument is an option for the region of the image or its binning, or no option, and the
-- read-out mode is that of images, the status and the parameters are those of the loop over the same
-- tokens in the image command.
pub resolve_cmd_parameters-resolve_options :
    (pf : Platform) (ts : List Bytes) (p : AndorParameters)
    → OnlyRegion ts
    → is_image_mode p.read_out_mode ≡ true
    → resolve_cmd_parameters pf ts p ≡ resolve_options pf ts p
unfolding resolve_cmd_parameters resolve_options
resolve_cmd_parameters-resolve_options pf [] p r m = refl
resolve_cmd_parameters-resolve_options pf (t ∷ []) p r m = rw (same_option t r.0) refl
resolve_cmd_parameters-resolve_options pf (t ∷ a ∷ ts) p r m =
    elim (Option-cases (ImageCommand.option_of t)) [
      | inl e ↦
          rw (resolve_cmd_parameters, resolve_options, same_option t r.0, e)
            (resolve_cmd_parameters-resolve_options pf (a ∷ ts) p r.1 m)
      | inr (o, e) ↦
          let region : is_region (some o) ≡ true = subst (λ x. is_region x ≡ true) e r.0 in
          let same = apply_option-same pf o a p region m in
          elim (Outcome-cases (ImageCommand.apply_option pf o a p)) [
            | inl (c, q, s) ↦
                rw (resolve_cmd_parameters, resolve_options, same_option t r.0, e, same, s) refl
            | inr (q, s) ↦
                rw (resolve_cmd_parameters, resolve_options, same_option t r.0, e, same, s)
                  (resolve_cmd_parameters-resolve_options pf ts q r.1.1
                    (rw (apply_option-mode pf o a p q region (same ∙ s)) m))
          ]
    ]
