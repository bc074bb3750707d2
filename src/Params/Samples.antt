-- ===== src/Params/Samples.antt =====
-- Parameters with the values of set_defaults, and a platform, for the tests.
use andor2k.Base.{◌*◌, [], none, false, pos}
use andor2k.Base.Text.{codes}
use andor2k.Params.{
  Platform, AndorParameters, ReadOutMode, AcquisitionMode, ShutterMode, max_pixels_in_dim, fits_dir,
}

abbrev pub no_floats : Platform
no_floats = record {
  strtod = λ s. none;
  strtod_int = λ s. pos 0;
  to_millisec = λ x. pos 0;
  start_time_correction = λ a b c d e. pos 0;
  grow = λ n. 2 * n;
}

abbrev pub defaults : AndorParameters
defaults = record {
  camera_num = pos 0;
  exposure = 0x3dcc_cccd;
  num_images = pos 1;
  initialization_dir = codes "/usr/local/etc/andor";
  save_dir = fits_dir;
  image_type = [];
  image_filename = [];
  object_name = codes " ";
  filter_name = [];
  observer_name = codes "andor2k";
  read_out_mode = ReadOutMode.image;
  single_track_center = pos 1;
  single_track_height = pos 1;
  image_hbin = pos 1;
  image_vbin = pos 1;
  image_hstart = pos 1;
  image_hend = pos max_pixels_in_dim;
  image_vstart = pos 1;
  image_vend = pos max_pixels_in_dim;
  acquisition_mode = AcquisitionMode.single_scan;
  num_accumulations = pos 1;
  accumulation_cycle_time = 0x3e4c_cccd;
  kinetics_cycle_time = 0x3f00_0000;
  hsspeed = pos 1;
  preampgain = pos 0;
  shutter_mode = ShutterMode.fully_auto;
  shutter_closing_time = pos 50;
  shutter_opening_time = pos 50;
  cooler_mode = false;
  ar_hdr_tries = pos 0;
}
