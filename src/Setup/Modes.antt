-- ===== src/Setup/Modes.antt =====
-- src/set_readout_mode.cpp, src/set_acquisition_mode.cpp, src/vhsspeed.cpp and
-- src/set_preampgain.cpp: telling the driver what the parameters say.
use andor2k.Base.{ℕ, ◌||◌, if◌then◌else◌, ℤ, pos, ltb_ℤ, leb_ℤ}
use andor2k.Params.{
  Float, AndorParameters, ReadOutMode, full_vertical_binning, multi_track, random_track,
  single_track, image, AcquisitionMode, single_scan, accumulate, kinetic_series, fast_kinetics,
  run_till_abort, unnamed, read_out_mode2int, acquisition_mode2int,
}
use andor2k.Driver.{
  Status, success, not_initialized, acquiring, p1_invalid, p2_invalid, p3_invalid, p4_invalid,
  p5_invalid, p6_invalid, is_success, not_applicable, M, ◌>>=◌, ret, perform, driver, call,
  ◌and_then◌, set_read_mode, set_single_track, set_image, set_acquisition_mode, set_exposure_time,
  set_number_accumulations, set_accumulation_cycle_time, set_number_kinetics,
  set_kinetic_cycle_time, get_fastest_recommended_vs_speed, set_vs_speed, set_hs_speed,
  get_hs_speed, get_number_pre_amp_gains, set_pre_amp_gain, get_pre_amp_gain,
}

-- The switch over the mode; `irom` is the mode's number.
unfoldable pub read_out_calls : ReadOutMode → AndorParameters → M Status
read_out_calls full_vertical_binning p =
    driver (set_read_mode (read_out_mode2int full_vertical_binning))
read_out_calls single_track p =
    driver (set_read_mode (read_out_mode2int single_track))
    and_then driver (set_single_track p.single_track_center p.single_track_height)
read_out_calls multi_track p = ret not_applicable
read_out_calls random_track p = ret not_applicable
read_out_calls image p =
    driver (set_read_mode (read_out_mode2int image))
    and_then driver (
        set_image p.image_hbin p.image_vbin p.image_hstart p.image_hend p.image_vstart p.image_vend)

-- The switch over the status.
unfoldable pub read_out_code : Status → ℕ
read_out_code success = 0
read_out_code not_initialized = 1
read_out_code acquiring = 2
read_out_code p1_invalid = 3
read_out_code p2_invalid = 4
read_out_code p3_invalid = 6
read_out_code p4_invalid = 6
read_out_code p5_invalid = 6
read_out_code p6_invalid = 6
read_out_code _ = 10

unfoldable pub setup_read_out_mode : AndorParameters → M ℕ
unfolding read_out_calls read_out_code
setup_read_out_mode p = do s ← read_out_calls p.read_out_mode p; ret (read_out_code s)

unfoldable pub acquisition_calls : AcquisitionMode → AndorParameters → M Status
acquisition_calls single_scan p =
    driver (set_acquisition_mode (acquisition_mode2int single_scan))
    and_then driver (set_exposure_time p.exposure)
acquisition_calls accumulate p =
    driver (set_acquisition_mode (acquisition_mode2int accumulate))
    and_then driver (set_exposure_time p.exposure)
    and_then driver (set_number_accumulations p.num_accumulations)
    and_then driver (set_accumulation_cycle_time p.accumulation_cycle_time)
acquisition_calls kinetic_series p =
    driver (set_acquisition_mode (acquisition_mode2int kinetic_series))
    and_then driver (set_exposure_time p.exposure)
    and_then driver (set_number_accumulations p.num_accumulations)
    and_then driver (set_accumulation_cycle_time p.accumulation_cycle_time)
    and_then driver (set_number_kinetics p.num_images)
    and_then driver (set_kinetic_cycle_time p.kinetics_cycle_time)
acquisition_calls run_till_abort p =
    driver (set_acquisition_mode (acquisition_mode2int run_till_abort))
    and_then driver (set_exposure_time p.exposure)
    and_then driver (set_kinetic_cycle_time p.kinetics_cycle_time)
acquisition_calls fast_kinetics p = ret not_applicable
acquisition_calls (unnamed _) p = ret not_applicable

unfoldable pub acquisition_code : Status → ℕ
acquisition_code success = 0
acquisition_code not_initialized = 1
acquisition_code acquiring = 2
acquisition_code p1_invalid = 3
acquisition_code _ = 5

unfoldable pub setup_acquisition_mode : AndorParameters → M ℕ
unfolding acquisition_calls acquisition_code
setup_acquisition_mode p = do s ← acquisition_calls p.acquisition_mode p; ret (acquisition_code s)

-- The status, and the vertical and horizontal speeds.
unfoldable pub set_fastest_recomended_vh_speeds : ℤ → M (ℕ × Float × Float)
set_fastest_recomended_vh_speeds hsspeed_index = do
  r ← perform (call get_fastest_recommended_vs_speed)
  s ← (if is_success r.status then driver (set_vs_speed r.int1) else ret r.status)
  if is_success s
      then (do
        t ← driver (set_hs_speed (pos 0) hsspeed_index)
        if is_success t
            then (do
              speed ← perform (call (get_hs_speed (pos 0) (pos 0) hsspeed_index))
              ret (0, r.float1, speed.float1))
            else ret (1, r.float1, 0))
      else ret (1, r.float1, 0)

unfoldable pub set_preampgain : AndorParameters → M ℕ
set_preampgain p = do
  gains ← perform (call get_number_pre_amp_gains)
  if is_success gains.status
      then (if ltb_ℤ p.preampgain (pos 0) || leb_ℤ gains.int1 p.preampgain then ret 1 else (do
        s ← driver (set_pre_amp_gain p.preampgain) and_then driver (get_pre_amp_gain p.preampgain)
        ret (if is_success s then 0 else 1)))
      else ret 1
