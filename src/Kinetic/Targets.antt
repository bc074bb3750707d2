-- ===== src/Kinetic/Targets.antt =====
-- Taking images, in src/get_acquisition.cpp, tells the camera no temperature.
use andor2k.Base.{◌∷◌, ℕ, zero, suc, Option, arith, ℤ, pos, ltb_ℤ, Bool-cases, inl, inr}
use andor2k.Params.{
  Platform, AndorParameters, AcquisitionMode, single_scan, accumulate, kinetic_series,
  fast_kinetics, run_till_abort, unnamed,
}
use andor2k.Headers.{FitsHeaders}
use andor2k.Driver.{M, call, start_acquisition}
use andor2k.Driver.Targets.{IsSafe}
use andor2k.Scan.Targets.{get_single_scan-IsSafe, get_rta_scan-IsSafe}
use andor2k.Kinetic.{
  Round, stop, next, coarse_exposure_time, series_times, kinetic_round, kinetic_after, kinetic_end,
  kinetic_loop, get_kinetic_scan, get_acquisition, acquire_in_mode,
}

coarse_exposure_time-IsSafe :
    (pf : Platform) (p : AndorParameters) → IsSafe (coarse_exposure_time pf p)
unfolding coarse_exposure_time
coarse_exposure_time-IsSafe pf p env h q = ground arith

kinetic_after-IsSafe :
    (more : ℤ → M (Option ℕ))
    → ((acquired : ℤ) → IsSafe (more acquired))
    → (r : Round) → IsSafe (kinetic_after more r)
unfolding kinetic_after
kinetic_after-IsSafe more rest (stop c) env h q = q
kinetic_after-IsSafe more rest (next acquired) env h q = rest acquired env h q

module _ (times : ℤ × ℤ) (hs : FitsHeaders) (x y : ℤ) where
  kinetic_round-IsSafe : (acquired : ℤ) → IsSafe (kinetic_round times hs x y acquired)
  unfolding kinetic_round
  kinetic_round-IsSafe acquired env h q = ground arith

  kinetic_loop-IsSafe :
      (n : ℤ) (rounds : ℕ) (acquired : ℤ) → IsSafe (kinetic_loop times hs x y n rounds acquired)
  unfolding kinetic_loop kinetic_end
  kinetic_loop-IsSafe n zero acquired env h q = q
  kinetic_loop-IsSafe n (suc rounds) acquired env h q =
      let r = kinetic_round times hs x y acquired env h in
      elim (Bool-cases (ltb_ℤ acquired n)) [
        | inl t ↦
            rw (t, kinetic_loop)
              (kinetic_after-IsSafe (kinetic_loop times hs x y n rounds)
                (kinetic_loop-IsSafe n rounds) r.0 env r.1 (kinetic_round-IsSafe acquired env h q))
        | inr f ↦ rw (f, kinetic_loop) q
      ]

module _ (pf : Platform) (p : AndorParameters) (hs : FitsHeaders) (x y : ℤ) where
  get_kinetic_scan-IsSafe : (rounds : ℕ) → IsSafe (get_kinetic_scan rounds pf p hs x y)
  unfolding get_kinetic_scan
  get_kinetic_scan-IsSafe rounds env h q =
      let r = coarse_exposure_time pf p env h in
      kinetic_loop-IsSafe (series_times pf p r.0) hs x y p.num_images rounds (pos 0) env
        (call start_acquisition ∷ r.1) (coarse_exposure_time-IsSafe pf p env h q)

  acquire_in_mode-IsSafe :
      (mode : AcquisitionMode) (rounds : ℕ) → IsSafe (acquire_in_mode mode rounds pf p hs x y)
  unfolding acquire_in_mode
  acquire_in_mode-IsSafe single_scan rounds env h q = get_single_scan-IsSafe hs x y env h q
  acquire_in_mode-IsSafe run_till_abort rounds env h q =
      get_rta_scan-IsSafe hs x y p.num_images env h q
  acquire_in_mode-IsSafe kinetic_series rounds env h q = get_kinetic_scan-IsSafe rounds env h q
  acquire_in_mode-IsSafe accumulate rounds env h q = q
  acquire_in_mode-IsSafe fast_kinetics rounds env h q = q
  acquire_in_mode-IsSafe (unnamed n) rounds env h q = q

  pub get_acquisition-IsSafe : (rounds : ℕ) → IsSafe (get_acquisition rounds pf p hs x y)
  unfolding get_acquisition
  get_acquisition-IsSafe rounds = acquire_in_mode-IsSafe p.acquisition_mode rounds
