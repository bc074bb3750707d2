-- ===== src/Params.antt =====
-- src/andor2k.hpp: the parameters of an acquisition, and their defaults (src/andor2k.cpp).
-- A `float` is the 32 bits of its IEEE 754 pattern, as a number; a `char` array is the string that it
-- holds, and a predicate of ImageCommand.Buffers says that the string and its null character fit.
pub mod Samples
use andor2k.Base.{Option, ℕ, ◌%◌, ◌^◌, Bool, false, ◌&&◌, ◌||◌, not, ltb, leb, ◌==◌, ℤ, pos, []}
use andor2k.Base.Text.{Bytes, codes}

abbrev pub Float : Type 0
Float = ℕ

-- The comparisons with 0 of a pattern: bit 31 is the sign, and a magnitude above that of the
-- infinity is no number.
abbrev pub is_nan : Float → Bool
is_nan x = ltb 0x7f80_0000 (x % 2 ^ 31)

-- x < 0
abbrev pub float_lt_zero : Float → Bool
float_lt_zero x = not (is_nan x) && (leb (2 ^ 31) x && ltb 0 (x % 2 ^ 31))

-- x >= 0
abbrev pub float_ge_zero : Float → Bool
float_ge_zero x = not (is_nan x) && (ltb x (2 ^ 31) || x % 2 ^ 31 == 0)

-- What the program takes from the floating-point library and from the vector of the C++ library.
pub record Platform : Type 0 where
  -- `strtod` and the conversion to `float`; `none` where no conversion is made.
  pub strtod : Bytes → Option Float
  -- `strtod` and the conversion to `int`; 0 where no conversion is made.
  pub strtod_int : Bytes → ℤ
  -- `static_cast<long>(x * 1e3)`
  pub to_millisec : Float → ℤ
  -- `start_time_correction(exposure, vsspeed, hsspeed, img_rows, img_cols)`
  pub start_time_correction : Float → Float → Float → ℤ → ℤ → ℤ
  -- The capacity of a full vector of n - 1 elements after one more is appended.
  pub grow : ℕ → ℕ

abbrev pub max_fits_filename_size : ℕ
max_fits_filename_size = 128

abbrev pub max_image_type_chars : ℕ
max_image_type_chars = 16

abbrev pub max_object_name_chars : ℕ
max_object_name_chars = 32

abbrev pub max_filter_name_chars : ℕ
max_filter_name_chars = 16

abbrev pub max_pixels_in_dim : ℕ
max_pixels_in_dim = 2048

pub data ReadOutMode : Type 0 where
  full_vertical_binning multi_track random_track single_track image : ReadOutMode

-- `setparam acqmode=` casts any number to the enumeration: `unnamed` is a value with no enumerator.
pub data AcquisitionMode : Type 0 where
  single_scan accumulate kinetic_series fast_kinetics run_till_abort : AcquisitionMode
  unnamed : ℤ → AcquisitionMode

pub data ShutterMode : Type 0 where
  fully_auto permanently_open permanently_closed open_for_fvb_series open_for_any_series :
      ShutterMode

pub record AndorParameters : Type 0 where
  pub camera_num : ℤ
  pub exposure : Float
  pub num_images : ℤ
  pub initialization_dir : Bytes
  pub save_dir : Bytes
  pub image_type : Bytes
  pub image_filename : Bytes
  pub object_name : Bytes
  pub filter_name : Bytes
  pub observer_name : Bytes
  pub read_out_mode : ReadOutMode
  pub single_track_center : ℤ
  pub single_track_height : ℤ
  pub image_hbin : ℤ
  pub image_vbin : ℤ
  pub image_hstart : ℤ
  pub image_hend : ℤ
  pub image_vstart : ℤ
  pub image_vend : ℤ
  pub acquisition_mode : AcquisitionMode
  pub num_accumulations : ℤ
  pub accumulation_cycle_time : Float
  pub kinetics_cycle_time : Float
  pub hsspeed : ℤ
  pub preampgain : ℤ
  pub shutter_mode : ShutterMode
  pub shutter_closing_time : ℤ
  pub shutter_opening_time : ℤ
  pub cooler_mode : Bool
  pub ar_hdr_tries : ℤ

abbrev pub read_out_mode2int : ReadOutMode → ℤ
read_out_mode2int full_vertical_binning = pos 0
read_out_mode2int multi_track = pos 1
read_out_mode2int random_track = pos 2
read_out_mode2int single_track = pos 3
read_out_mode2int image = pos 4

abbrev pub acquisition_mode2int : AcquisitionMode → ℤ
acquisition_mode2int single_scan = pos 1
acquisition_mode2int accumulate = pos 2
acquisition_mode2int kinetic_series = pos 3
acquisition_mode2int fast_kinetics = pos 4
acquisition_mode2int run_till_abort = pos 5
acquisition_mode2int (unnamed n) = n

abbrev pub shutter_mode2int : ShutterMode → ℤ
shutter_mode2int fully_auto = pos 0
shutter_mode2int permanently_open = pos 1
shutter_mode2int permanently_closed = pos 2
shutter_mode2int open_for_fvb_series = pos 3
shutter_mode2int open_for_any_series = pos 4

-- The patterns of 0.1f, 0.2f and 0.5f.
abbrev tenth : Float
tenth = 0x3dcc_cccd

abbrev fifth : Float
fifth = 0x3e4c_cccd

abbrev half : Float
half = 0x3f00_0000

abbrev pub fits_dir : Bytes
fits_dir = codes "/home/andor2k/fits"

-- The members that it does not name keep their values.
unfoldable pub set_defaults : AndorParameters → AndorParameters
set_defaults p = record p {
  camera_num = pos 0;
  exposure = tenth;
  num_images = pos 1;
  image_type = [];
  initialization_dir = codes "/usr/local/etc/andor";
  image_filename = [];
  save_dir = fits_dir;
  object_name = codes " ";
  read_out_mode = image;
  single_track_center = pos 1;
  single_track_height = pos 1;
  image_hbin = pos 1;
  image_vbin = pos 1;
  image_hstart = pos 1;
  image_vstart = pos 1;
  image_hend = pos max_pixels_in_dim;
  image_vend = pos max_pixels_in_dim;
  acquisition_mode = single_scan;
  num_accumulations = pos 1;
  accumulation_cycle_time = fifth;
  kinetics_cycle_time = half;
  shutter_mode = fully_auto;
  shutter_closing_time = pos 50;
  shutter_opening_time = pos 50;
  cooler_mode = false;
  ar_hdr_tries = pos 0;
}
