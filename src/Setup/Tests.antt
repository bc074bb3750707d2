-- ===== src/Setup/Tests.antt =====
-- A preparation with a camera that does all it is told.
use andor2k.Base.{negsuc, arith, arith, false, true, ◌≡◌, refl, [], ◌∷◌, pos, some}
use andor2k.Base.Text.{codes, starts_with}
use andor2k.Params.{AndorParameters, permanently_open}
use andor2k.Headers.{FitsHeader, FitsHeaders, no_headers, cval}
use andor2k.Driver.{Environment, success}
use andor2k.Params.Samples.{no_floats, defaults}
use andor2k.ImageCommand.{resolve_image_parameters}
use andor2k.Setup.{
  image_size, outside, add_headers, add_aristarchos_headers, prepare_headers, check_detector,
  initialize_shutter, sized_acquisition, set_modes, setup_acquisition,
}
use andor2k.Setup.Modes.{
  read_out_calls, read_out_code, acquisition_calls, acquisition_code,
  set_fastest_recomended_vh_speeds, set_preampgain, setup_read_out_mode, setup_acquisition_mode,
}
use andor2k.Setup.Told
use andor2k.Setup.Shutter
use andor2k.Setup.Accepted
use andor2k.Setup.Ready
use andor2k.Setup.Written
use andor2k.Setup.Buffers
use andor2k.ImageCommand.Buffers.{IsBounded}
use andor2k.Headers.Stored.{IsStored, AllStored}
use andor2k.FitsImage.{Cfitsio, apply_headers}
use andor2k.FitsImage.Applied.{HasStatuses}

abbrev camera : Environment
camera h e = record {
  status = success;
  flag = true;
  int1 = pos 2048;
  int2 = pos 2048;
  float1 = 0;
  float2 = 0;
  float3 = 0;
  text = [];
  headers = [];
}

abbrev dark_frame : AndorParameters
dark_frame = record defaults {
  image_type = codes "dark";
  shutter_mode = permanently_open;
  image_hbin = pos 2;
}

abbrev none_yet : FitsHeaders
none_yet = no_headers 100

ready : (setup_acquisition no_floats dark_frame none_yet camera []).0.2 ≡ some (pos 1024, pos 2048)
unfolding setup_acquisition set_modes initialize_shutter sized_acquisition check_detector
    prepare_headers add_aristarchos_headers add_headers setup_read_out_mode read_out_calls
    read_out_code setup_acquisition_mode acquisition_calls acquisition_code
    set_fastest_recomended_vh_speeds set_preampgain starts_with
ready = refl

is_ready : (setup_acquisition no_floats dark_frame none_yet camera []).0.0 ≡ 0
unfolding setup_acquisition set_modes initialize_shutter sized_acquisition check_detector
    prepare_headers add_aristarchos_headers add_headers setup_read_out_mode read_out_calls
    read_out_code setup_acquisition_mode acquisition_calls acquisition_code
    set_fastest_recomended_vh_speeds set_preampgain starts_with
is_ready = refl

openings-setup_acquisition_example :
    Shutter.openings (setup_acquisition no_floats dark_frame none_yet camera []).1 ≡ 0
unfolding starts_with
openings-setup_acquisition_example =
    Shutter.openings-setup_acquisition no_floats dark_frame none_yet camera [] refl

setup_acquisition_size_example :
    Ready.IsSized dark_frame (setup_acquisition no_floats dark_frame none_yet camera []).0
setup_acquisition_size_example =
    Ready.setup_acquisition_size no_floats dark_frame none_yet camera []

told-setup_acquisition_example :
    Told.told (setup_acquisition no_floats dark_frame none_yet camera []).1
    ≡ Told.as_asked dark_frame
told-setup_acquisition_example =
    Told.told-setup_acquisition no_floats dark_frame none_yet camera [] is_ready

abbrev binned_by_two : AndorParameters
binned_by_two = record defaults { image_hbin = pos 2; image_vbin = pos 2 }

bin_two : resolve_image_parameters no_floats (codes "image --bin 2") defaults ≡ (0, binned_by_two)
unfolding resolve_image_parameters
bin_two = refl

outside-image_size_example :
    (outside (image_size binned_by_two).0 ≡ false) × (outside (image_size binned_by_two).1 ≡ false)
outside-image_size_example =
    Accepted.outside-image_size no_floats (codes "image --bin 2") defaults binned_by_two bin_two
      (omega arith, omega arith) (omega arith, omega arith)

abbrev accepting : Cfitsio
accepting h c s = s

accepting_statuses : HasStatuses accepting
accepting_statuses h c = refl

apply_headers-setup_acquisition_example :
    let hs = (setup_acquisition no_floats dark_frame none_yet camera []).0.1 in
    let (status, calls) = apply_headers accepting hs false [] in
    (status ≡ negsuc 99)
    × (Written.key_calls (codes "FILTER") calls ≡ 1)
    × (Written.key_calls (codes "TIMECORR") calls ≡ 0)
    × (Written.key_calls (codes "CCDTEMP") calls ≡ 0)
apply_headers-setup_acquisition_example =
    Written.apply_headers-setup_acquisition no_floats 100 dark_frame camera [] refl is_ready
      accepting accepting_statuses false

abbrev focus : FitsHeader
focus = record {
  key = codes "FOCUS   ";
  comment = codes " position";
  value = cval (codes "12.5 mm");
}

-- The camera, with a telescope that gives a header.
abbrev observatory : Environment
observatory h e = record (camera h e) { headers = focus ∷ [] }

focus-IsStored : IsStored focus
focus-IsStored = record { key = omega arith; comment = omega arith; value = omega arith }

abbrev with_telescope : AndorParameters
with_telescope = record defaults { ar_hdr_tries = pos 2 }

with_telescope-IsBounded : IsBounded with_telescope
with_telescope-IsBounded = record {
  image_filename = omega arith;
  image_type = omega arith;
  object_name = omega arith;
  filter_name = omega arith;
  save_dir = omega arith;
}

command-AllStored_example :
    let p =
      (resolve_image_parameters no_floats (codes "image --bin 2 --object m31") with_telescope).1 in
    AllStored (setup_acquisition no_floats p none_yet observatory []).0.1.mvec
command-AllStored_example =
    Buffers.command-AllStored no_floats (codes "image --bin 2 --object m31") with_telescope none_yet
      observatory [] with_telescope-IsBounded (omega arith) (λ h tries. (focus-IsStored, tt)) tt
