-- ===== src/Scan/Result.antt =====
-- What the status of a scan says of the images that are saved.
use andor2k.Base.{
  inl, ◌≢◌, ◌⊎◌, ℕ, zero, suc, ◌+◌, ◌<◌, ◌≡◌, refl, [], ◌∷◌, arith, ◌==◌, if◌then◌else◌, ℤ, pos,
  pos_part, ◌≤ℤ◌,
}
use andor2k.Headers.{FitsHeaders}
use andor2k.Driver.{
  Environment, History, Event, call, sleep, read_clock, spawn_reporter, spawn_listener, lock,
  close_fits, start_acquisition, get_acquisition_timings, wait_for_acquisition,
  get_number_new_images,
}
use andor2k.Scan.{
  get_single_scan, get_rta_scan, wait_new_data, series_image, series_new_data, series_data,
  series_loop, series_end, max_polls,
}

-- The FITS files that are written and closed.
abbrev pub saves : Event → ℕ
saves close_fits = 1
saves _ = 0

abbrev pub saved : History → ℕ
saved [] = 0
saved (e ∷ h) = saves e + saved h

-- A single scan returns 0 exactly if it saves an image, and saves one at most.
pub saved-get_single_scan :
    (hs : FitsHeaders) (x y : ℤ) (env : Environment) (h : History)
    → saved (get_single_scan hs x y env h).1
      ≡ saved h + (if (get_single_scan hs x y env h).0 == 0 then 1 else 0)
unfolding get_single_scan
saved-get_single_scan hs x y env h = ground arith

saved-wait_new_data :
    (polls : ℕ) (env : Environment) (h : History) → saved (wait_new_data polls env h).1 ≡ saved h
unfolding wait_new_data
saved-wait_new_data zero env h = refl
saved-wait_new_data (suc polls) env h =
    ground
      (arith, saved-wait_new_data polls env (read_clock ∷ sleep 1 ∷ call get_number_new_images ∷ h))

module _ (hs : FitsHeaders) (x y n : ℤ) (env : Environment) where
  saved-series_data :
      (cur : ℤ) (h : History)
      → saved (series_data hs x y n cur env h).1
        ≡ saved h + (if (series_data hs x y n cur env h).0 == 0 then 1 else 0)
  unfolding series_data
  saved-series_data cur h = ground arith

  saved-series_new_data :
      (cur : ℤ) (h : History)
      → saved (series_new_data hs x y n cur env h).1
        ≡ saved h + (if (series_new_data hs x y n cur env h).0 == 0 then 1 else 0)
  unfolding series_new_data
  saved-series_new_data cur h = ground (
    arith,
    saved-wait_new_data max_polls env h,
    saved-series_data cur (wait_new_data max_polls env h).1,
  )

  saved-series_image :
      (cur : ℤ) (h : History)
      → saved (series_image hs x y n cur env h).1
        ≡ saved h + (if (series_image hs x y n cur env h).0 == 0 then 1 else 0)
  unfolding series_image
  saved-series_image cur h =
      ground (arith, saved-series_new_data cur (call wait_for_acquisition ∷ h))

  -- All the images are saved, or fewer.
  saved-series_loop :
      (left cur : ℕ) (h : History)
      → let (c, h') = series_loop hs x y n left cur env h in
        ((c ≡ 0) × (saved h' ≡ saved h + left)) ⊎ ((c ≢ 0) × (saved h' < saved h + left))
  unfolding series_loop
  saved-series_loop zero cur h = inl (refl, omega arith)
  saved-series_loop (suc left) cur h = ground (
    arith,
    saved-series_image (pos cur) h,
    saved-series_loop left (cur + 1) (series_image hs x y n (pos cur) env h).1,
  )

-- A series of at least one image returns 0 with every image of it saved, or it returns another status
-- with fewer saved.
pub saved-get_rta_scan :
    (hs : FitsHeaders) (x y n : ℤ) (env : Environment) (h : History)
    → pos 1 ≤ℤ n
    → let (c, h') = get_rta_scan hs x y n env h in
      ((c ≡ 0) × (saved h' ≡ saved h + pos_part n)) ⊎ ((c ≢ 0) × (saved h' < saved h + pos_part n))
unfolding get_rta_scan series_end
saved-get_rta_scan hs x y n env h one = ground (
  arith,
  saved-series_loop hs x y n env (pos_part n) 1 (
      spawn_reporter
      ∷ lock
      ∷ call start_acquisition
      ∷ call get_acquisition_timings
      ∷ sleep 100
      ∷ spawn_listener
      ∷ h),
)
