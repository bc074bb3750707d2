-- ===== src/Setup.antt =====
-- src/set_acquisition.cpp: preparing an acquisition. What is printed is left out, and so is the
-- memory for the image, which the caller owns: its size is that of the image.
pub mod Modes
pub mod Plan
pub mod Gain
pub mod Shutter
pub mod Told
pub mod Ready
pub mod Accepted
pub mod Written
pub mod Buffers
pub mod Correction
pub mod Targets
mod Tests
use andor2k.Base.{
  ◌++◌, ℕ, Bool, true, false, ◌&&◌, ◌||◌, not, List, [], ◌∷◌, Option, none, some, ◌==◌,
  if◌then◌else◌, ℤ, pos, negsuc, ◌+ℤ◌, ◌-ℤ◌, ◌/ℤ◌, ltb_ℤ, leb_ℤ, eqb_ℤ,
}
use andor2k.Base.Text.{Bytes, codes, starts_with}
use andor2k.Params.{
  Float, float_ge_zero, Platform, AndorParameters, ReadOutMode, permanently_closed,
  shutter_mode2int, max_pixels_in_dim,
}
use andor2k.Headers.{
  FitsHeader, FitsHeaders, HeaderValue, ival, fval, cval, lval, create_fits_header, update, merge,
}
use andor2k.Driver.{
  Status, temp_stabilized, is_success, Reply, M, ◌>>=◌, ◌>>◌, ret, perform, driver, call, sleep,
  fetch_headers, set_shutter, get_detector, set_trigger_mode, get_acquisition_timings,
  get_pre_amp_gain, get_temperature_f,
}
use andor2k.ImageCommand.{is_image_mode}
use andor2k.Setup.Modes.{
  setup_read_out_mode, setup_acquisition_mode, set_fastest_recomended_vh_speeds, set_preampgain,
}

-- A frame for which the shutter stays closed.
abbrev pub is_dark : Bytes → Bool
is_dark image_type = starts_with (codes "dark") image_type || starts_with (codes "bias") image_type

pub initialize_shutter : AndorParameters → M Status
initialize_shutter p =
    if is_dark p.image_type
    then (do
      s ← driver (
          set_shutter (pos 1) (shutter_mode2int permanently_closed) p.shutter_closing_time
            p.shutter_opening_time)
      perform (sleep 1000)
      ret s)
    else driver (
        set_shutter (pos 1) (shutter_mode2int p.shutter_mode) p.shutter_closing_time
          p.shutter_opening_time)

-- The status after the modes, the speeds, the gain and the shutter, and the vertical and horizontal
-- speeds.
pub set_modes : AndorParameters → M (ℕ × Float × Float)
unfolding initialize_shutter
set_modes p = do
  read_out ← setup_read_out_mode p
  acquisition ← (if read_out == 0 then setup_acquisition_mode p else ret 10)
  if acquisition == 0
      then (do
        (shifts, vsspeed, hsspeed) ← set_fastest_recomended_vh_speeds p.hsspeed
        if shifts == 0
            then (do
              set_preampgain p
              s ← initialize_shutter p
              ret (if is_success s then 0 else 10, vsspeed, hsspeed))
            else ret (10, vsspeed, hsspeed))
      else ret (10, 0, 0)

pub check_detector : M ℕ
check_detector = do
  r ← perform (call get_detector)
  ret (
      if is_success r.status
      then if eqb_ℤ r.int1 (pos max_pixels_in_dim) && eqb_ℤ r.int2 (pos max_pixels_in_dim)
        then 0
        else 1
      else 1)

-- The width and the height of the image. A binning is not zero: src/resolve_image_parameters.cpp
-- accepts no other.
abbrev pub image_size : AndorParameters → ℤ × ℤ
image_size p = (
  (p.image_hend -ℤ p.image_hstart +ℤ pos 1) /ℤ p.image_hbin,
  (p.image_vend -ℤ p.image_vstart +ℤ pos 1) /ℤ p.image_vbin,
)

abbrev pub outside : ℤ → Bool
outside n = ltb_ℤ n (pos 1) || ltb_ℤ (pos max_pixels_in_dim) n

abbrev pub merge_aristarchos : Platform → List FitsHeader → FitsHeaders → ℕ × FitsHeaders
merge_aristarchos pf [] hs = (0, hs)
merge_aristarchos pf (ar ∷ ars) hs =
    let (hs', added) = merge pf (ar ∷ ars) true hs in (elim added [ negsuc _ ↦ 2 | pos _ ↦ 0 ], hs')

-- The headers of the telescope, where they are asked for.
pub add_aristarchos_headers : Platform → AndorParameters → FitsHeaders → M (ℕ × FitsHeaders)
add_aristarchos_headers pf p hs =
    if ltb_ℤ (pos 0) p.ar_hdr_tries
    then (do r ← perform (fetch_headers p.ar_hdr_tries); ret (merge_aristarchos pf r.headers hs))
    else ret (0, hs)

-- Updates whose failures are only printed.
pub update_all : Platform → List FitsHeader → FitsHeaders → FitsHeaders
unfolding update
update_all pf [] hs = hs
update_all pf (hdr ∷ hdrs) hs = update_all pf hdrs (update pf hdr hs).0

abbrev speed_headers : Float → Float → List FitsHeader
speed_headers vsspeed hsspeed =
    create_fits_header (codes "HSSPEED") (fval hsspeed)
      (codes "Horizontal Shift Speed (microsec / pixel shift) in MHz")
    ∷ create_fits_header (codes "VSSPEED") (fval vsspeed)
        (codes "Vertical Shift Speed (microsec / pixel shift)")
    ∷ []

abbrev gain_headers : Float → List FitsHeader
gain_headers factor =
    if float_ge_zero factor
    then create_fits_header (codes "GAIN") (fval factor) (codes "Pre-Amp Gain Factor") ∷ []
    else []

abbrev parameter_headers : AndorParameters → Float → ℤ → List FitsHeader
parameter_headers p exposure time_correction =
    create_fits_header (codes "OBSERVER") (cval p.observer_name) (codes "Observer name/id")
    ∷ create_fits_header (codes "EXPOSED") (fval exposure) (codes "Requested exposure time (sec)")
    ∷ create_fits_header (codes "EXPTIME") (fval exposure) (codes "Requested exposure time (sec)")
    ∷ create_fits_header (codes "VBIN") (ival p.image_vbin) (codes "Vertical binning")
    ∷ create_fits_header (codes "HBIN") (ival p.image_hbin) (codes "Horizontal Binning")
    ∷ create_fits_header (codes "INSTRUME") (cval (codes "ANDOR2048x2048_BV"))
        (codes "Instrument used to acquire data")
    ∷ create_fits_header (codes "OBJECT") (cval p.object_name) (codes "Object identifier")
    ∷ create_fits_header (codes "FILTER") (cval p.filter_name) (codes "Filter used")
    ∷ create_fits_header (codes "TIMECORR") (lval time_correction)
        (codes "Timming correction already applied (nanosec)")
    ∷ []

abbrev temperature_headers : Reply → List FitsHeader
temperature_headers r = elim r.status [
  | temp_stabilized ↦
      create_fits_header (codes "CCDTEMP") (fval r.float1)
        (codes "CCD temp at start of exposure degC")
      ∷ []
  | _ ↦ []
]

-- The headers after the speeds: what the driver said of the times, the gain and the temperature.
abbrev camera_headers :
    Platform → AndorParameters → Float → Float → ℤ × ℤ → Reply → Reply → Reply → List FitsHeader
camera_headers pf p vsspeed hsspeed (width, height) timings gain temperature =
    let exposure = timings.float1 in
    let correction = pf.start_time_correction exposure vsspeed hsspeed height width in
    gain_headers gain.float1
    ++ parameter_headers p exposure correction
    ++ temperature_headers temperature

-- The status, and the headers.
pub add_headers :
    Platform → AndorParameters → Float → Float → ℤ × ℤ → FitsHeaders → M (ℕ × FitsHeaders)
unfolding update_all create_fits_header
add_headers pf p vsspeed hsspeed size hs = do
  timings ← perform (call get_acquisition_timings)
  if is_success timings.status
      then (do
        let with_speeds = update_all pf (speed_headers vsspeed hsspeed) hs
        gain ← perform (call (get_pre_amp_gain p.preampgain))
        if is_success gain.status
            then (do
              temperature ← perform (call get_temperature_f)
              let added = camera_headers pf p vsspeed hsspeed size timings gain temperature
              ret (0, update_all pf added with_speeds))
            else ret (1, with_speeds))
      else ret (3, hs)

-- The end of the preparation, with the size of the image known.
pub prepare_headers :
    Platform
    → AndorParameters
    → Float
    → Float
    → ℤ × ℤ
    → FitsHeaders
    → M (ℕ × FitsHeaders × Option (ℤ × ℤ))
unfolding add_aristarchos_headers add_headers
prepare_headers pf p vsspeed hsspeed size hs = do
  driver (set_trigger_mode (pos 0))
  (merged, hs1) ← add_aristarchos_headers pf p hs
  if merged == 0
      then (do
        (added, hs2) ← add_headers pf p vsspeed hsspeed size hs1
        ret (added, hs2, if added == 0 then some size else none))
      else ret (merged, hs1, none)

pub sized_acquisition :
    Platform → AndorParameters → Float → Float → FitsHeaders → M (ℕ × FitsHeaders × Option (ℤ × ℤ))
unfolding check_detector
sized_acquisition pf p vsspeed hsspeed hs = do
  detector ← check_detector
  let (width, height) = image_size p
  if detector == 0 && not (outside width || outside height)
      then prepare_headers pf p vsspeed hsspeed (width, height) hs
      else ret (1, hs, none)

-- The status, the headers, and the width and the height, which are set where the status is 0.
pub setup_acquisition :
    Platform → AndorParameters → FitsHeaders → M (ℕ × FitsHeaders × Option (ℤ × ℤ))
unfolding set_modes
setup_acquisition pf p hs =
    if is_image_mode p.read_out_mode
    then (do
      (modes, vsspeed, hsspeed) ← set_modes p
      if modes == 0 then sized_acquisition pf p vsspeed hsspeed hs else ret (modes, hs, none))
    else ret (1, hs, none)
