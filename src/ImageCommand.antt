-- ===== src/ImageCommand.antt =====
-- src/resolve_image_parameters.cpp: the command "image" with its options, as a change of the
-- parameters. The messages to stderr are left out; a value is the status that the code returns, with
-- the parameters as they stand then, since an error keeps what was set before it.
pub mod Options
pub mod Validity
pub mod Buffers
mod Tests
use andor2k.Base.{
  ◌==◌, ℕ, Bool, true, false, not, ◌&&◌, ◌||◌, List, [], ◌∷◌, Option, none, some, ltb, leb,
  if◌then◌else◌, length, drop, ℤ, pos, ltb_ℤ, leb_ℤ, eqb_ℤ, to_int32,
}
use andor2k.Base.Text.{Bytes, codes, starts_with, tokens, strtol, Conversion}
use andor2k.Params.{
  Platform, AndorParameters, ReadOutMode, AcquisitionMode, single_scan, run_till_abort,
  float_lt_zero, float_ge_zero, max_image_type_chars, max_object_name_chars, max_filter_name_chars,
  max_pixels_in_dim, fits_dir,
}

pub data ImageOption : Type 0 where
  nimages bin hbin vbin hstart hend vstart vend : ImageOption
  filename kind object filter exposure ar_tries : ImageOption

-- The chain of `strncmp` tests on a token, in its order.
unfoldable pub option_of : Bytes → Option ImageOption
unfolding starts_with
option_of t =
    if starts_with (codes "--nimages") t
    then some nimages
    else if starts_with (codes "--bin") t
    then some bin
    else if starts_with (codes "--hbin") t
    then some hbin
    else if starts_with (codes "--vbin") t
    then some vbin
    else if starts_with (codes "--hstart") t
    then some hstart
    else if starts_with (codes "--hend") t
    then some hend
    else if starts_with (codes "--vstart") t
    then some vstart
    else if starts_with (codes "--vend") t
    then some vend
    else if starts_with (codes "--filename") t
    then some filename
    else if starts_with (codes "--type") t
    then some kind
    else if starts_with (codes "--object") t
    then some object
    else if starts_with (codes "--filter") t
    then some filter
    else if starts_with (codes "--exposure") t
    then some exposure
    else if starts_with (codes "--ar-tries") t
    then some ar_tries
    else none

-- After an option the function returns, or goes on with the next token.
pub data Outcome : Type 0 where
  stop : ℕ → AndorParameters → Outcome
  next : AndorParameters → Outcome

abbrev pub is_image_mode : ReadOutMode → Bool
is_image_mode ReadOutMode.image = true
is_image_mode _ = false

abbrev pub is_single_scan : AcquisitionMode → Bool
is_single_scan single_scan = true
is_single_scan _ = false

-- `strtol(token, &end, 10)` as an `int`; 0 where nothing is converted.
abbrev pub int_of : Option Conversion → ℤ
int_of none = pos 0
int_of (some c) = to_int32 c.value

-- The value is stored first; `end == token` is an error then.
abbrev pub stored : Option Conversion → AndorParameters → Outcome
stored none p = stop 1 p
stored (some _) p = next p

-- `if (params.read_out_mode_ != ReadOutMode::Image) return 4;`
abbrev pub in_image_mode : AndorParameters → Outcome
in_image_mode p = if is_image_mode p.read_out_mode then next p else stop 4 p

-- `and_mode` is the test that follows `--vend`.
abbrev pub and_mode : Outcome → Outcome
and_mode (stop c p) = stop c p
and_mode (next p) = in_image_mode p

-- --nimages
unfoldable pub set_nimages : ℤ → Bool → AndorParameters → Outcome
set_nimages n nothing p =
    if nothing || ltb_ℤ n (pos 1)
    then stop 1 (record p { num_images = n })
    else if eqb_ℤ n (pos 1)
    then next (record p { num_images = n; acquisition_mode = single_scan })
    else if is_single_scan p.acquisition_mode
    then next (record p { num_images = n; acquisition_mode = run_till_abort })
    else next (record p { num_images = n })

abbrev pub is_none : Option Conversion → Bool
is_none none = true
is_none (some _) = false

-- The options with an integer.
pub apply_integer : ImageOption → Bytes → AndorParameters → Outcome
unfolding set_nimages strtol
apply_integer nimages a p = set_nimages (int_of (strtol a)) (is_none (strtol a)) p
apply_integer bin a p =
    stored (strtol a) (record p { image_vbin = int_of (strtol a); image_hbin = int_of (strtol a) })
apply_integer hbin a p = stored (strtol a) (record p { image_hbin = int_of (strtol a) })
apply_integer vbin a p = stored (strtol a) (record p { image_vbin = int_of (strtol a) })
apply_integer hstart a p = stored (strtol a) (record p { image_hstart = int_of (strtol a) })
apply_integer hend a p = stored (strtol a) (record p { image_hend = int_of (strtol a) })
apply_integer vstart a p = stored (strtol a) (record p { image_vstart = int_of (strtol a) })
apply_integer vend a p = and_mode (stored (strtol a) (record p { image_vend = int_of (strtol a) }))
apply_integer ar_tries a p = stored (strtol a) (record p { ar_hdr_tries = int_of (strtol a) })
apply_integer _ a p = next p

-- The options with a string, which is refused if it does not fit its buffer.
pub apply_string : ImageOption → Bytes → AndorParameters → Outcome
apply_string filename a p =
    if leb 128 (length a) then stop 1 p else in_image_mode (record p { image_filename = a })
apply_string kind a p =
    if leb max_image_type_chars (length a)
    then stop 1 p
    else in_image_mode (record p { image_type = a })
apply_string object a p =
    if leb max_object_name_chars (length a)
    then stop 1 p
    else in_image_mode (record p { object_name = a })
apply_string filter a p =
    if leb max_filter_name_chars (length a)
    then stop 1 p
    else in_image_mode (record p { filter_name = a })
apply_string _ a p = next p

-- --exposure; the value of a text that is no number is 0.
pub apply_exposure : Platform → Bytes → AndorParameters → Outcome
apply_exposure pf a p = elim (pf.strtod a) [
  | none ↦ stop 1 (record p { exposure = 0 })
  | some x ↦
      if float_ge_zero x
      then next (record p { exposure = x })
      else stop 1 (record p { exposure = x })
]

unfoldable pub apply_option : Platform → ImageOption → Bytes → AndorParameters → Outcome
unfolding apply_integer apply_string apply_exposure
apply_option pf exposure a p = apply_exposure pf a p
apply_option pf filename a p = apply_string filename a p
apply_option pf kind a p = apply_string kind a p
apply_option pf object a p = apply_string object a p
apply_option pf filter a p = apply_string filter a p
apply_option pf o a p = apply_integer o a p

-- The loop over the tokens. An unknown token is skipped; an option takes the token after it.
unfoldable pub resolve_options : Platform → List Bytes → AndorParameters → ℕ × AndorParameters
unfolding option_of apply_option
resolve_options pf [] p = (0, p)
resolve_options pf (t ∷ []) p = elim (option_of t) [ none ↦ (0, p) | some o ↦ (1, p) ]
resolve_options pf (t ∷ a ∷ ts) p = elim (option_of t) [
  | none ↦ resolve_options pf (a ∷ ts) p
  | some o ↦ elim (apply_option pf o a p) [ stop c q ↦ (c, q) | next q ↦ resolve_options pf ts q ]
]

-- A starting pixel outside [1, 2048), and an ending pixel outside [2, 2048].
abbrev pub bad_start : ℤ → Bool
bad_start n = ltb_ℤ n (pos 1) || leb_ℤ (pos max_pixels_in_dim) n

abbrev pub bad_end : ℤ → Bool
bad_end n = leb_ℤ n (pos 1) || ltb_ℤ (pos max_pixels_in_dim) n

-- The final tests.
pub final_status : AndorParameters → ℕ
final_status p =
    if eqb_ℤ p.image_vbin (pos 0)
      || eqb_ℤ p.image_hbin (pos 0)
      || (bad_start p.image_hstart || bad_start p.image_vstart)
      || (bad_end p.image_hend || bad_end p.image_vend)
      || float_lt_zero p.exposure
    then 2
    else 0

pub final_tests : AndorParameters → ℕ × AndorParameters
unfolding final_status
final_tests p =
    if is_image_mode p.read_out_mode
    then (final_status p, record p { save_dir = fits_dir })
    else (4, record p { save_dir = fits_dir })

abbrev pub then_final : ℕ × AndorParameters → ℕ × AndorParameters
then_final (c, q) = if c == 0 then final_tests q else (c, q)

unfoldable pub resolve_image_parameters : Platform → Bytes → AndorParameters → ℕ × AndorParameters
unfolding starts_with tokens resolve_options final_tests
resolve_image_parameters pf command p =
    if not (starts_with (codes "image") command)
    then (1, p)
    else if not (is_image_mode p.read_out_mode)
    then (4, p)
    else then_final (resolve_options pf (drop 1 (tokens command)) p)
