-- ===== src/CommandLine.antt =====
-- src/cmd_parser.cpp: the arguments of a program as a change of the parameters. What is printed is
-- left out. The options are those of the image command but three; here a string is copied over what
-- its array holds, of which the characters behind the string are null.
pub mod Accepted
pub mod Kept
pub mod Region
mod Tests
use andor2k.Base.{
  ℕ, ◌%◌, ◌^◌, Bool, true, false, not, ◌&&◌, List, [], ◌∷◌, ◌++◌, Option, none, some, ltb, leb,
  if◌then◌else◌, length, drop, ℤ, pos, ltb_ℤ, ◌||◌,
}
use andor2k.Base.Text.{Bytes, codes, starts_with, strtol}
use andor2k.Params.{Platform, AndorParameters, Float, is_nan, kinetic_series}
use andor2k.ImageCommand.{
  ImageOption, nimages, bin, hbin, vbin, hstart, hend, vstart, vend, filename, kind, exposure,
  object, filter, ar_tries, Outcome, stop, next, int_of, stored, is_none,
}

-- The chain of `strncmp` tests on an argument, in its order.
pub option_of : Bytes → Option ImageOption
unfolding starts_with
option_of t =
    if starts_with (codes "--nimages") t
    then some nimages
    else if starts_with (codes "--bin") t
    then some bin
    else if starts_with (codes "--hbin") t
    then some hbin
    else if starts_with (codes "--vbin") t
    then some vbin
    else if starts_with (codes "--hstart") t
    then some hstart
    else if starts_with (codes "--hend") t
    then some hend
    else if starts_with (codes "--vstart") t
    then some vstart
    else if starts_with (codes "--vend") t
    then some vend
    else if starts_with (codes "--filename") t
    then some filename
    else if starts_with (codes "--type") t
    then some kind
    else if starts_with (codes "--exposure") t
    then some exposure
    else none

-- --nimages
pub set_nimages : ℤ → Bool → AndorParameters → Outcome
set_nimages n nothing p =
    if nothing || ltb_ℤ n (pos 1)
    then stop 1 (record p { num_images = n })
    else if ltb_ℤ (pos 1) n
    then next (record p { num_images = n; acquisition_mode = kinetic_series })
    else next (record p { num_images = n })

-- `memcpy(array, s, strlen(s))`, with what the array holds behind the copy.
abbrev pub copied_over : Bytes → Bytes → Bytes
copied_over s array = s ++ drop (length s) array

-- x > 0
abbrev pub float_gt_zero : Float → Bool
float_gt_zero x = not (is_nan x) && (ltb x (2 ^ 31) && ltb 0 (x % 2 ^ 31))

-- --exposure; the value of a text that is no number is 0.
pub set_exposure : Option Float → AndorParameters → Outcome
set_exposure none p = stop 1 (record p { exposure = 0 })
set_exposure (some x) p =
    if float_gt_zero x then next (record p { exposure = x }) else stop 1 (record p { exposure = x })

-- The body of a branch, with the argument after the option.
pub apply_option : Platform → ImageOption → Bytes → AndorParameters → Outcome
unfolding set_nimages set_exposure strtol
apply_option pf nimages a p = set_nimages (int_of (strtol a)) (is_none (strtol a)) p
apply_option pf bin a p =
    stored (strtol a) (record p { image_vbin = int_of (strtol a); image_hbin = int_of (strtol a) })
apply_option pf hbin a p = stored (strtol a) (record p { image_hbin = int_of (strtol a) })
apply_option pf vbin a p = stored (strtol a) (record p { image_vbin = int_of (strtol a) })
apply_option pf hstart a p = stored (strtol a) (record p { image_hstart = int_of (strtol a) })
apply_option pf hend a p = stored (strtol a) (record p { image_hend = int_of (strtol a) })
apply_option pf vstart a p = stored (strtol a) (record p { image_vstart = int_of (strtol a) })
apply_option pf vend a p = stored (strtol a) (record p { image_vend = int_of (strtol a) })
apply_option pf filename a p =
    if leb 128 (length a)
    then stop 1 p
    else next (record p { image_filename = copied_over a p.image_filename })
apply_option pf kind a p =
    if ltb 15 (length a)
    then stop 1 p
    else next (record p { image_type = copied_over a p.image_type })
apply_option pf exposure a p = set_exposure (pf.strtod a) p
apply_option pf _ a p = next p

-- The loop over the arguments behind the name of the program. What is no option is skipped.
unfoldable pub resolve_cmd_parameters :
    Platform → List Bytes → AndorParameters → ℕ × AndorParameters
unfolding option_of apply_option
resolve_cmd_parameters pf [] p = (0, p)
resolve_cmd_parameters pf (t ∷ []) p = elim (option_of t) [ none ↦ (0, p) | some o ↦ (1, p) ]
resolve_cmd_parameters pf (t ∷ a ∷ ts) p = elim (option_of t) [
  | none ↦ resolve_cmd_parameters pf (a ∷ ts) p
  | some o ↦ elim (apply_option pf o a p) [
    | stop c q ↦ (c, q)
    | next q ↦ resolve_cmd_parameters pf ts q
  ]
]
