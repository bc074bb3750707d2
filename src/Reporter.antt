-- ===== src/Reporter.antt =====
-- AcquisitionReporter::report of src/acquisition_reporter.cpp: the thread that reports the progress of
-- an exposure until it can lock g_mtx. What is printed is left out, and of a message only the
-- percentage is kept.
pub mod Sends
pub mod Series
pub mod Thread
mod Tests
use andor2k.Base.{
  ℕ, zero, suc, Bool, true, false, Option, none, some, if◌then◌else◌, ℤ, pos, ◌*ℤ◌, ◌/ℤ◌, eqb_ℤ,
  to_int32, pos_part,
}
use andor2k.Driver.{
  M, ◌>>=◌, ◌>>◌, ret, perform, try_lock, read_elapsed, send_progress, sleep, unlock,
  read_abort_set,
}

-- The percentage of the exposure that is over, a `long` that becomes an `int`.
abbrev pub percentage : ℤ → ℤ → ℤ
percentage from_series_start exposure_ms = to_int32 (from_series_start *ℤ pos 100 /ℤ exposure_ms)

-- After the lock: the percentage of the last message, which is prepared and not sent.
pub last_percentage : ℤ → ℤ → M ℤ
last_percentage exposure_ms from_series_start = do
  perform unlock
  aborted ← perform read_abort_set
  ret (if aborted.flag then percentage from_series_start exposure_ms else pos 100)

-- The loop, for so many rounds at most.
pub report_rounds : ℤ → ℤ → ℕ → ℤ → M (Option ℤ)
unfolding last_percentage
report_rounds exposure_ms every_ms zero from_series_start = ret none
report_rounds exposure_ms every_ms (suc rounds) from_series_start =
    let more = report_rounds exposure_ms every_ms rounds in
    do
      locked ← perform try_lock
      if locked.flag
          then (do
            image_done ← last_percentage exposure_ms from_series_start
            ret (some image_done))
          else (do
            elapsed ← perform read_elapsed
            perform (send_progress (percentage elapsed.int1 exposure_ms))
            perform (sleep (pos_part every_ms))
            more elapsed.int1)

-- The percentage of the last message; a bias image is done at once.
pub report : ℕ → ℤ → ℤ → M (Option ℤ)
unfolding report_rounds
report rounds exposure_ms every_ms =
    if eqb_ℤ exposure_ms (pos 0)
    then ret (some (pos 100))
    else report_rounds exposure_ms every_ms rounds (pos 0)
