-- ===== src/Scan/Targets.antt =====
-- The scans of src/get_single_scan.cpp and src/get_rta_scan.cpp tell the camera no temperature.
use andor2k.Base.{pos_part, ℕ, zero, suc, ◌+◌, arith, ℤ, pos, ◌∷◌}
use andor2k.Headers.{FitsHeaders}
use andor2k.Driver.{
  spawn_reporter, lock, start_acquisition, get_acquisition_timings, spawn_listener, call, sleep,
  read_clock, get_number_new_images, wait_for_acquisition,
}
use andor2k.Driver.Targets.{IsSafe}
use andor2k.Scan.{
  get_single_scan, get_rta_scan, wait_new_data, series_image, series_new_data, series_data,
  series_loop, series_end, max_polls,
}

pub get_single_scan-IsSafe : (hs : FitsHeaders) (x y : ℤ) → IsSafe (get_single_scan hs x y)
unfolding get_single_scan
get_single_scan-IsSafe hs x y env h q = ground arith

wait_new_data-IsSafe : (polls : ℕ) → IsSafe (wait_new_data polls)
unfolding wait_new_data
wait_new_data-IsSafe zero env h q = q
wait_new_data-IsSafe (suc polls) env h q =
    ground (
      arith,
      wait_new_data-IsSafe polls env (read_clock ∷ sleep 1 ∷ call get_number_new_images ∷ h),
    )

module _ (hs : FitsHeaders) (x y n : ℤ) where
  series_data-IsSafe : (cur : ℤ) → IsSafe (series_data hs x y n cur)
  unfolding series_data
  series_data-IsSafe cur env h q = ground arith

  series_new_data-IsSafe : (cur : ℤ) → IsSafe (series_new_data hs x y n cur)
  unfolding series_new_data
  series_new_data-IsSafe cur env h q = ground (
    arith,
    wait_new_data-IsSafe max_polls env h q,
    series_data-IsSafe cur env (wait_new_data max_polls env h).1,
  )

  series_image-IsSafe : (cur : ℤ) → IsSafe (series_image hs x y n cur)
  unfolding series_image
  series_image-IsSafe cur env h q =
      ground (arith, series_new_data-IsSafe cur env (call wait_for_acquisition ∷ h))

  series_loop-IsSafe : (left cur : ℕ) → IsSafe (series_loop hs x y n left cur)
  unfolding series_loop
  series_loop-IsSafe zero cur env h q = q
  series_loop-IsSafe (suc left) cur env h q = ground (
    arith,
    series_image-IsSafe (pos cur) env h q,
    series_loop-IsSafe left (cur + 1) env (series_image hs x y n (pos cur) env h).1,
  )

  series_end-IsSafe : (c : ℕ) → IsSafe (series_end n c)
  unfolding series_end
  series_end-IsSafe c env h q = ground arith

  pub get_rta_scan-IsSafe : IsSafe (get_rta_scan hs x y n)
  unfolding get_rta_scan
  get_rta_scan-IsSafe env h q =
      let h1 =
        spawn_reporter
        ∷ lock
        ∷ call start_acquisition
        ∷ call get_acquisition_timings
        ∷ sleep 100
        ∷ spawn_listener
        ∷ h in
      let r = series_loop hs x y n (pos_part n) 1 env h1 in
      ground (arith, series_loop-IsSafe (pos_part n) 1 env h1, series_end-IsSafe r.0 env r.1)
