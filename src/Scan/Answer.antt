-- ===== src/Scan/Answer.antt =====
-- What the client of src/get_single_scan.cpp and src/get_rta_scan.cpp is told.
use andor2k.Base.{ℕ, zero, suc, ◌+◌, ◌≡◌, refl, ◌∷◌, arith, ◌==◌, if◌then◌else◌, ℤ, pos, pos_part}
use andor2k.Headers.{FitsHeaders}
use andor2k.Driver.{
  Environment, History, call, sleep, read_clock, spawn_reporter, spawn_listener, lock,
  start_acquisition, get_acquisition_timings, wait_for_acquisition, get_number_new_images,
}
use andor2k.Driver.Messages.{dones}
use andor2k.Scan.{
  get_single_scan, get_rta_scan, wait_new_data, series_image, series_new_data, series_data,
  series_loop, series_end, max_polls,
}

-- A single scan sends exactly one message that begins with "done", on every path.
pub dones-get_single_scan :
    (hs : FitsHeaders) (x y : ℤ) (env : Environment) (h : History)
    → dones (get_single_scan hs x y env h).1 ≡ dones h + 1
unfolding get_single_scan
dones-get_single_scan hs x y env h = ground arith

-- A part of a series that returns 0 goes on, and one that does not has told the client.
abbrev told : ℕ → ℕ
told c = if c == 0 then 0 else 1

dones-wait_new_data :
    (polls : ℕ) (env : Environment) (h : History) → dones (wait_new_data polls env h).1 ≡ dones h
unfolding wait_new_data
dones-wait_new_data zero env h = refl
dones-wait_new_data (suc polls) env h =
    ground
      (arith, dones-wait_new_data polls env (read_clock ∷ sleep 1 ∷ call get_number_new_images ∷ h))

module _ (hs : FitsHeaders) (x y n : ℤ) (env : Environment) where
  dones-series_data :
      (cur : ℤ) (h : History)
      → dones (series_data hs x y n cur env h).1 ≡ dones h + told (series_data hs x y n cur env h).0
  unfolding series_data
  dones-series_data cur h = ground arith

  dones-series_new_data :
      (cur : ℤ) (h : History)
      → dones (series_new_data hs x y n cur env h).1
        ≡ dones h + told (series_new_data hs x y n cur env h).0
  unfolding series_new_data
  dones-series_new_data cur h = ground (
    arith,
    dones-wait_new_data max_polls env h,
    dones-series_data cur (wait_new_data max_polls env h).1,
  )

  dones-series_image :
      (cur : ℤ) (h : History)
      → dones (series_image hs x y n cur env h).1
        ≡ dones h + told (series_image hs x y n cur env h).0
  unfolding series_image
  dones-series_image cur h =
      ground (arith, dones-series_new_data cur (call wait_for_acquisition ∷ h))

  dones-series_loop :
      (left cur : ℕ) (h : History)
      → dones (series_loop hs x y n left cur env h).1
        ≡ dones h + told (series_loop hs x y n left cur env h).0
  unfolding series_loop
  dones-series_loop zero cur h = omega arith
  dones-series_loop (suc left) cur h = ground (
    arith,
    dones-series_image (pos cur) h,
    dones-series_loop left (cur + 1) (series_image hs x y n (pos cur) env h).1,
  )

-- A series of any number of images sends exactly one message that begins with "done", on every path.
pub dones-get_rta_scan :
    (hs : FitsHeaders) (x y n : ℤ) (env : Environment) (h : History)
    → dones (get_rta_scan hs x y n env h).1 ≡ dones h + 1
unfolding get_rta_scan series_end
dones-get_rta_scan hs x y n env h = ground (
  arith,
  dones-series_loop hs x y n env (pos_part n) 1 (
      spawn_reporter
      ∷ lock
      ∷ call start_acquisition
      ∷ call get_acquisition_timings
      ∷ sleep 100
      ∷ spawn_listener
      ∷ h),
)
