-- ===== src/Reporter/Series.antt =====
-- AcquisitionSeriesReporter::report of src/acquisition_series_reporter.cpp: the thread that reports the
-- progress of a series until it can lock g_mtx, as built without NEW_PART. The main thread sets the
-- number of the current image. What is printed is left out; of a message the number of the image and
-- the percentages are kept.
pub mod Order
mod Tests
use andor2k.Base.{
  ℕ, zero, suc, Bool, true, false, Option, none, some, not, if◌then◌else◌, ℤ, pos, ◌+ℤ◌, ◌-ℤ◌, ◌*ℤ◌,
  ◌/ℤ◌, eqb_ℤ, to_int32,
}
use andor2k.Driver.{
  M, ◌>>=◌, ◌>>◌, ret, perform, try_lock, unlock, sleep, read_series_times, read_current_image,
  restart_image, send_series,
}

-- The estimate for the first image, `static_cast<long>(999.677e0 * exp_in_sec + 961.827e0)`, is in
-- floating point, and an argument.
abbrev pub FirstEstimate : Type 0
FirstEstimate = ℤ → ℤ

unfoldable pub estimated_time_per_image : FirstEstimate → ℤ → ℤ → ℤ
estimated_time_per_image first exposure_ms img_nr =
    if eqb_ℤ img_nr (pos 0) then first exposure_ms else pos 700 +ℤ exposure_ms

unfoldable pub estimated_series_time : FirstEstimate → ℤ → ℤ → ℤ
unfolding estimated_time_per_image
estimated_series_time first exposure_ms num_images =
    estimated_time_per_image first exposure_ms (pos 0)
    +ℤ estimated_time_per_image first exposure_ms (pos 1) *ℤ (num_images -ℤ pos 1)
    +ℤ pos 4 *ℤ num_images

abbrev pub every_millisec : ℕ
every_millisec = 200

-- A part of a whole in percent, a `long` that becomes an `int`. The whole is not 0.
abbrev pub percent_of : ℤ → ℤ → ℤ
percent_of part whole = to_int32 (part *ℤ pos 100 /ℤ whole)

-- Where the main thread has gone on to another image: the message on the one before, and the number of
-- the current image, which is read once more.
pub next_image : ℤ → ℤ → ℤ → M ℤ
next_image cur_img from_acquisition_start total_millisec = do
  now ← perform read_current_image
  if eqb_ℤ cur_img now.int1 then ret cur_img else (do
    perform (restart_image (pos 100))
    perform (send_series true cur_img (pos 100) (percent_of from_acquisition_start total_millisec))
    again ← perform read_current_image
    ret again.int1)

-- A round of the loop: the number of the image for the next.
pub series_round : FirstEstimate → ℤ → ℤ → ℤ → M ℤ
unfolding next_image estimated_time_per_image
series_round first exposure_ms total_millisec cur_img = do
  times ← perform read_series_times
  cur ← next_image cur_img times.int2 total_millisec
  perform (
      send_series false cur (percent_of times.int1 (estimated_time_per_image first exposure_ms cur))
        (percent_of times.int2 total_millisec))
  perform (sleep every_millisec)
  ret cur

-- The loop, for so many rounds at most. After the lock a message is prepared, which is not sent.
pub series_rounds : FirstEstimate → ℤ → ℤ → ℕ → ℤ → M (Option ℤ)
unfolding series_round
series_rounds first exposure_ms total_millisec zero cur_img = ret none
series_rounds first exposure_ms total_millisec (suc rounds) cur_img =
    let more = series_rounds first exposure_ms total_millisec rounds in
    do
      locked ← perform try_lock
      if locked.flag
          then (do perform unlock; ret (some cur_img))
          else series_round first exposure_ms total_millisec cur_img >>= more

-- `report`: the number of the image that the last message would have.
unfoldable pub series_report : ℕ → FirstEstimate → ℤ → ℤ → M (Option ℤ)
unfolding series_rounds estimated_series_time
series_report rounds first exposure_ms num_images =
    series_rounds first exposure_ms (estimated_series_time first exposure_ms num_images) rounds
      (pos 1)
