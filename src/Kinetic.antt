-- ===== src/Kinetic.antt =====
-- src/get_acquisition.cpp and src/coarse_image_time.cpp: the kinetic series, and the choice of how to
-- acquire. What is printed is left out, and so are the messages of the thread that reports progress,
-- none of which begins with "done". The copy of the image is in memory that the caller owns.
pub mod Threads
pub mod Told
pub mod Progress
pub mod Targets
mod Await
mod Tests
use andor2k.Base.{
  refl, ◌≡◌, ℕ, zero, suc, Bool, true, false, ◌||◌, Option, none, some, if◌then◌else◌, ℤ, pos, ◌+ℤ◌,
  ◌-ℤ◌, ◌*ℤ◌, ltb_ℤ, ◌==◌,
}
use andor2k.Base.Text.{Bytes}
use andor2k.Params.{
  Platform, Float, AndorParameters, AcquisitionMode, single_scan, accumulate, kinetic_series,
  fast_kinetics, run_till_abort, unnamed,
}
use andor2k.Headers.{FitsHeaders}
use andor2k.Driver.{
  History, Environment, Status, is_success, Reply, M, ◌>>=◌, ◌>>◌, ret, perform, driver, call, send,
  get_acquisition_timings, get_read_out_time, start_acquisition, wait_for_acquisition,
  abort_acquisition, get_total_number_images_acquired, get_most_recent_image, spawn_progress,
  stop_progress, join_progress, read_sig_abort, read_sig_interrupt, next_fits_filename, create_fits,
  write_fits, apply_fits_headers, close_fits, recent_image_error, kinetic_done,
}
use andor2k.Scan.{get_single_scan, get_rta_scan}

-- The milliseconds of each image of an accumulation.
abbrev accumulated : AndorParameters → ℤ → ℤ → ℤ → ℤ
accumulated p exposure cycle read_out =
    (p.num_accumulations -ℤ pos 1) *ℤ (cycle -ℤ exposure) +ℤ exposure +ℤ read_out

-- The milliseconds for an image and for the series; `none` where the mode has none.
pub mode_times : AndorParameters → ℤ → ℤ → ℤ → ℤ → Option (ℤ × ℤ)
mode_times p exposure cycle kinetic read_out =
    let single = exposure +ℤ read_out in
    let each = accumulated p exposure cycle read_out in
    elim p.acquisition_mode [
      | single_scan ↦ some (single, p.num_images *ℤ single)
      | accumulate ↦ some (each, each)
      | kinetic_series ↦ some (each, (p.num_images -ℤ pos 1) *ℤ kinetic +ℤ each)
      | run_till_abort ↦ some (single, p.num_images *ℤ single)
      | fast_kinetics ↦ none
      | unnamed n ↦ none
    ]

-- `none` stands for a status other than 0, after which the times are not set.
pub coarse_exposure_time : Platform → AndorParameters → M (Option (ℤ × ℤ))
unfolding mode_times
coarse_exposure_time pf p = do
  timings ← perform (call get_acquisition_timings)
  if is_success timings.status
      then (do
        read_out ← perform (call get_read_out_time)
        ret (
            if is_success read_out.status
            then mode_times p (pf.to_millisec timings.float1) (pf.to_millisec timings.float2)
                (pf.to_millisec timings.float3) (pf.to_millisec read_out.float1)
            else none))
      else ret none

-- The times that the reports are made with.
pub series_times : Platform → AndorParameters → Option (ℤ × ℤ) → ℤ × ℤ
series_times pf p (some times) = times
series_times pf p none = (pf.to_millisec p.exposure, p.num_images *ℤ pf.to_millisec p.exposure)

-- A round of the loop returns a status, or goes on with the images acquired so far.
pub data Round : Type 0 where
  stop : ℕ → Round
  next : ℤ → Round

abbrev pub abort_exit_status : ℕ
abort_exit_status = 2147483647

abbrev pub interrupt_exit_status : ℕ
interrupt_exit_status = 2147483647

-- `sig_abort_set || sig_interrupt_set`
pub signalled : M Bool
signalled = do
  a ← perform read_sig_abort
  if a.flag then ret true else (do i ← perform read_sig_interrupt; ret i.flag)

pub end_progress : M (Unit {0})
end_progress = do perform (stop_progress true); perform join_progress; ret tt

signal_exit : M Round
unfolding end_progress
signal_exit = do
  end_progress
  a ← perform read_sig_abort
  ret (stop (if a.flag then abort_exit_status else interrupt_exit_status))

-- The image goes to its file; the name is what `get_next_fits_filename` gives.
kinetic_save : FitsHeaders → ℤ → ℤ → ℤ → M Round
kinetic_save hs x y acquired = do
  name ← perform next_fits_filename
  if name.flag
      then (do
        perform (create_fits name.text)
        written ← perform (write_fits x y)
        if written.flag
            then (do perform (apply_fits_headers hs.mvec); perform close_fits; ret (next acquired))
            else (do driver abort_acquisition; ret (stop 2)))
      else (do driver abort_acquisition; ret (stop 1))

-- `GetTotalNumberImagesAcquired` fills `lAcquired`, which keeps its value where the call fails.
pub kinetic_image : FitsHeaders → ℤ → ℤ → ℤ → M Round
unfolding kinetic_save
kinetic_image hs x y acquired = do
  total ← perform (call get_total_number_images_acquired)
  s ← driver (get_most_recent_image (x *ℤ y))
  if is_success s
      then kinetic_save hs x y (if is_success total.status then total.int1 else acquired)
      else (do driver abort_acquisition; perform (send (recent_image_error s)); ret (stop 10))

kinetic_wait : FitsHeaders → ℤ → ℤ → ℤ → M Round
unfolding end_progress kinetic_image
kinetic_wait hs x y acquired = do
  s ← driver wait_for_acquisition
  if is_success s
      then (do end_progress; kinetic_image hs x y acquired)
      else (do driver abort_acquisition; end_progress; ret (stop 10))

pub kinetic_round : ℤ × ℤ → FitsHeaders → ℤ → ℤ → ℤ → M Round
unfolding signalled signal_exit kinetic_wait
kinetic_round (per_image, total) hs x y acquired = do
  perform (stop_progress false)
  perform (spawn_progress per_image total (acquired +ℤ pos 1))
  quit ← signalled
  if quit then signal_exit else kinetic_wait hs x y acquired

pub kinetic_end : ℤ → M (Option ℕ)
kinetic_end acquired = do
  perform (send (kinetic_done acquired))
  driver abort_acquisition
  ret (some 0)

-- What follows a round.
pub kinetic_after : (ℤ → M (Option ℕ)) → Round → M (Option ℕ)
kinetic_after more (stop c) = ret (some c)
kinetic_after more (next acquired) = more acquired

-- The loop while fewer than `n` images are acquired, for so many rounds at most; `none` where these do
-- not suffice.
pub kinetic_loop : ℤ × ℤ → FitsHeaders → ℤ → ℤ → ℤ → ℕ → ℤ → M (Option ℕ)
unfolding kinetic_round kinetic_end kinetic_after
kinetic_loop times hs x y n zero acquired = ret none
kinetic_loop times hs x y n (suc rounds) acquired =
    let more = kinetic_loop times hs x y n rounds in
    if ltb_ℤ acquired n
    then kinetic_round times hs x y acquired >>= kinetic_after more
    else kinetic_end acquired

-- The loop, for each answer of its test.
module _ (times : ℤ × ℤ) (hs : FitsHeaders) (x y n : ℤ) (rounds : ℕ) (acquired : ℤ) where
  module _ (env : Environment) (h : History) where
    pub loop_more :
        ltb_ℤ acquired n ≡ true
        → kinetic_loop times hs x y n (suc rounds) acquired env h
          ≡ (kinetic_round times hs x y acquired
                >>= kinetic_after (kinetic_loop times hs x y n rounds))
              env h
    unfolding kinetic_loop
    loop_more t = rw (t, kinetic_loop) refl

    pub loop_end :
        ltb_ℤ acquired n ≡ false
        → kinetic_loop times hs x y n (suc rounds) acquired env h ≡ kinetic_end acquired env h
    unfolding kinetic_loop
    loop_end f = rw (f, kinetic_loop) refl

pub get_kinetic_scan : ℕ → Platform → AndorParameters → FitsHeaders → ℤ → ℤ → M (Option ℕ)
unfolding coarse_exposure_time series_times kinetic_loop
get_kinetic_scan rounds pf p hs x y = do
  times ← coarse_exposure_time pf p
  driver start_acquisition
  kinetic_loop (series_times pf p times) hs x y p.num_images rounds (pos 0)

-- A status that is always given.
abbrev pub returned : M ℕ → M (Option ℕ)
returned m = m >>= λ c. ret (some c)

-- The switch over the mode.
pub acquire_in_mode :
    AcquisitionMode → ℕ → Platform → AndorParameters → FitsHeaders → ℤ → ℤ → M (Option ℕ)
unfolding get_kinetic_scan
acquire_in_mode single_scan rounds pf p hs x y = returned (get_single_scan hs x y)
acquire_in_mode run_till_abort rounds pf p hs x y = returned (get_rta_scan hs x y p.num_images)
acquire_in_mode kinetic_series rounds pf p hs x y = get_kinetic_scan rounds pf p hs x y
acquire_in_mode _ rounds pf p hs x y = ret (some 10)

pub get_acquisition : ℕ → Platform → AndorParameters → FitsHeaders → ℤ → ℤ → M (Option ℕ)
unfolding acquire_in_mode
get_acquisition rounds pf p hs x y = acquire_in_mode p.acquisition_mode rounds pf p hs x y
