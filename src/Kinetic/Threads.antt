-- ===== src/Kinetic/Threads.antt =====
-- The threads of src/get_acquisition.cpp, in each mode of acquisition.
use andor2k.Base.{Option, ◌∷◌, ℕ, zero, suc, arith, ℤ, pos, ltb_ℤ, Bool-cases, inl, inr}
use andor2k.Params.{
  Platform, AndorParameters, AcquisitionMode, single_scan, accumulate, kinetic_series,
  fast_kinetics, run_till_abort, unnamed,
}
use andor2k.Headers.{FitsHeaders}
use andor2k.Driver.{Environment, History, M, call, start_acquisition}
use andor2k.Driver.Threads.{IsOrderly, IsQuiet, IsReached, orderly-IsQuiet}
use andor2k.Scan.Quiet.{get_single_scan-IsOrderly, get_rta_scan-IsOrderly}
use andor2k.Kinetic.{
  Round, stop, next, coarse_exposure_time, series_times, kinetic_round, kinetic_after, kinetic_end,
  kinetic_loop, get_kinetic_scan, get_acquisition, acquire_in_mode, kinetic_image,
}

kinetic_image-IsOrderly :
    (hs : FitsHeaders) (x y acquired : ℤ) (env : Environment) (h : History)
    → IsOrderly h
    → IsOrderly (kinetic_image hs x y acquired env h).1
unfolding kinetic_image
kinetic_image-IsOrderly hs x y acquired env h q = ground arith

kinetic_round-IsOrderly :
    (times : ℤ × ℤ) (hs : FitsHeaders) (x y acquired : ℤ) (env : Environment) (h : History)
    → IsOrderly h
    → IsOrderly (kinetic_round times hs x y acquired env h).1
unfolding kinetic_round
kinetic_round-IsOrderly times hs x y acquired env h q = ground arith

coarse_exposure_time-IsOrderly :
    (pf : Platform) (p : AndorParameters) (env : Environment) (h : History)
    → IsOrderly h
    → IsOrderly (coarse_exposure_time pf p env h).1
unfolding coarse_exposure_time
coarse_exposure_time-IsOrderly pf p env h q = ground arith

kinetic_end-IsOrderly :
    (acquired : ℤ) (env : Environment) (h : History)
    → IsOrderly h
    → IsOrderly (kinetic_end acquired env h).1
unfolding kinetic_end
kinetic_end-IsOrderly acquired env h q = ground arith

start-IsOrderly : (h : History) → IsOrderly h → IsOrderly (call start_acquisition ∷ h)
start-IsOrderly h q = ground arith

-- What follows a round, given that the rounds after it are quiet.
kinetic_after-IsOrderly :
    (more : ℤ → M (Option ℕ)) (r : Round × History) (env : Environment)
    → ((acquired : ℤ) (h : History) → IsOrderly h → IsOrderly (more acquired env h).1)
    → IsOrderly r.1
    → IsOrderly (kinetic_after more r.0 env r.1).1
unfolding kinetic_after
kinetic_after-IsOrderly more (stop c, h) env rest q = q
kinetic_after-IsOrderly more (next acquired, h) env rest q = rest acquired h q

kinetic_loop-IsOrderly :
    (times : ℤ × ℤ) (hs : FitsHeaders) (x y n : ℤ) (rounds : ℕ) (acquired : ℤ) (env : Environment)
    (h : History)
    → IsOrderly h
    → IsOrderly (kinetic_loop times hs x y n rounds acquired env h).1
unfolding kinetic_loop
kinetic_loop-IsOrderly times hs x y n zero acquired env h q = q
kinetic_loop-IsOrderly times hs x y n (suc rounds) acquired env h q =
    elim (Bool-cases (ltb_ℤ acquired n)) [
      | inl t ↦
          rw (t, kinetic_loop)
            (kinetic_after-IsOrderly (kinetic_loop times hs x y n rounds)
              (kinetic_round times hs x y acquired env h) env
              (λ acquired' h'. kinetic_loop-IsOrderly times hs x y n rounds acquired' env h')
              (kinetic_round-IsOrderly times hs x y acquired env h q))
      | inr f ↦ rw (f, kinetic_loop) (kinetic_end-IsOrderly acquired env h q)
    ]

get_kinetic_scan-IsOrderly :
    (rounds : ℕ) (pf : Platform) (p : AndorParameters) (hs : FitsHeaders) (x y : ℤ)
    (env : Environment) (h : History)
    → IsOrderly h
    → IsOrderly (get_kinetic_scan rounds pf p hs x y env h).1
unfolding get_kinetic_scan
get_kinetic_scan-IsOrderly rounds pf p hs x y env h q =
    let r = coarse_exposure_time pf p env h in
    kinetic_loop-IsOrderly (series_times pf p r.0) hs x y p.num_images rounds (pos 0) env
      (call start_acquisition ∷ r.1)
      (start-IsOrderly r.1 (coarse_exposure_time-IsOrderly pf p env h q))

acquire_in_mode-IsOrderly :
    (mode : AcquisitionMode) (rounds : ℕ) (pf : Platform) (p : AndorParameters) (hs : FitsHeaders)
    (x y : ℤ) (env : Environment) (h : History)
    → IsOrderly h
    → IsOrderly (acquire_in_mode mode rounds pf p hs x y env h).1
unfolding acquire_in_mode
acquire_in_mode-IsOrderly single_scan rounds pf p hs x y env h q =
    get_single_scan-IsOrderly hs x y env h q
acquire_in_mode-IsOrderly run_till_abort rounds pf p hs x y env h q =
    get_rta_scan-IsOrderly hs x y p.num_images env h q
acquire_in_mode-IsOrderly kinetic_series rounds pf p hs x y env h q =
    get_kinetic_scan-IsOrderly rounds pf p hs x y env h q
acquire_in_mode-IsOrderly accumulate rounds pf p hs x y env h q = q
acquire_in_mode-IsOrderly fast_kinetics rounds pf p hs x y env h q = q
acquire_in_mode-IsOrderly (unnamed n) rounds pf p hs x y env h q = q

get_acquisition-IsOrderly :
    (rounds : ℕ) (pf : Platform) (p : AndorParameters) (hs : FitsHeaders) (x y : ℤ)
    (env : Environment) (h : History)
    → IsOrderly h
    → IsOrderly (get_acquisition rounds pf p hs x y env h).1
unfolding get_acquisition
get_acquisition-IsOrderly rounds pf p hs x y env h q =
    acquire_in_mode-IsOrderly p.acquisition_mode rounds pf p hs x y env h q

-- Where the abort listener waits no more after a shutdown of its socket: in every mode of
-- acquisition, and whatever else the driver, the client and the file system answer, an acquisition
-- begun with no thread running never waits for a thread that has no reason to end, and leaves no thread
-- running and the mutex free.
pub get_acquisition-IsQuiet :
    (rounds : ℕ) (pf : Platform) (p : AndorParameters) (hs : FitsHeaders) (x y : ℤ)
    (env : Environment) (h : History)
    → IsReached env
    → IsQuiet env h
    → IsQuiet env (get_acquisition rounds pf p hs x y env h).1
get_acquisition-IsQuiet rounds pf p hs x y env h reached =
    orderly-IsQuiet env h (get_acquisition rounds pf p hs x y env h).1 reached
      (get_acquisition-IsOrderly rounds pf p hs x y env h)
