-- ===== src/Scan.antt =====
-- src/save_as_fits.cpp, src/get_single_scan.cpp, src/get_rta_scan.cpp and the kinetic series of
-- src/get_acquisition.cpp: taking images and saving them. Each function returns its status; what it
-- does is its history. The progress messages of the reporter thread, which never begin with "done",
-- are not in the history, and neither is what is printed. The build is the one with DEBUG, which
-- src/Makefile.am configures.
pub mod Quiet
pub mod Answer
pub mod Wait
pub mod Result
pub mod Targets
mod Tests
use andor2k.Base.{
  ℕ, zero, suc, ◌+◌, Bool, true, false, ◌||◌, List, if◌then◌else◌, ℤ, pos, pos_part, ◌*ℤ◌, ◌==◌,
  ltb_ℤ,
}
use andor2k.Base.Text.{Bytes}
use andor2k.Params.{AndorParameters, AcquisitionMode, single_scan, run_till_abort, kinetic_series}
use andor2k.Headers.{FitsHeaders}
use andor2k.Driver.{
  Status, success, is_success, no_new_data, Event, call, sleep, send, spawn_listener,
  shutdown_listener, join_listener, spawn_reporter, join_reporter, lock, unlock, read_abort_set,
  read_sig_abort, read_sig_interrupt, read_clock, next_fits_filename, create_fits, write_fits,
  apply_fits_headers, close_fits, M, ◌>>=◌, ◌>>◌, ret, perform, driver, get_acquisition_timings,
  start_acquisition, wait_for_acquisition, abort_acquisition, get_acquired_data,
  get_number_new_images, get_images, get_total_number_images_acquired, get_most_recent_image,
  start_error, start_error_series, aborted_by_user, wait_error, series_aborted_by_user,
  series_wait_error, series_data_error, data_error, recent_image_error, data_acquired,
  fits_name_error, fits_write_error, fits_created, image_done, series_done, kinetic_done,
}

-- The calls of cfitsio, and the message that follows.
write_image : FitsHeaders → ℤ → ℤ → Bytes → M (ℕ × Bytes)
write_image hs x y fn = do
  perform (create_fits fn)
  written ← perform (write_fits x y)
  if written.flag
      then (do
        perform (send (fits_created fn))
        perform (apply_fits_headers hs.mvec)
        perform close_fits
        ret (0, fn))
      else (do perform (send fits_write_error); ret (1, fn))

-- The status, and the name of the file.
pub save_as_fits : FitsHeaders → ℤ → ℤ → M (ℕ × Bytes)
unfolding write_image
save_as_fits hs x y = do
  name ← perform next_fits_filename
  if name.flag
      then write_image hs x y name.text
      else (do driver abort_acquisition; perform (send fits_name_error); ret (1, name.text))

-- The end of both threads, once the mutex is free.
end_threads : M (Unit {0})
end_threads = do perform shutdown_listener; perform join_reporter; perform join_listener; ret tt

single_saved : ℕ × Bytes → M ℕ
single_saved (c, fn) = if c == 0 then (do perform (send (image_done fn)); ret 0) else ret 1

single_data : FitsHeaders → ℤ → ℤ → M ℕ
unfolding save_as_fits single_saved
single_data hs x y = do
  perform unlock
  perform shutdown_listener
  s ← driver (get_acquired_data (x *ℤ y))
  perform join_reporter
  perform join_listener
  if is_success s
      then (do perform (send data_acquired); saved ← save_as_fits hs x y; single_saved saved)
      else (do driver abort_acquisition; perform (send (data_error s)); ret 2)

single_wait_failed : Status → M ℕ
unfolding end_threads
single_wait_failed s = do
  driver abort_acquisition
  perform unlock
  end_threads
  aborted ← perform read_abort_set
  perform (send (if aborted.flag then aborted_by_user s else wait_error s))
  ret 1

single_started : FitsHeaders → ℤ → ℤ → M ℕ
unfolding single_data single_wait_failed
single_started hs x y = do
  perform lock
  perform spawn_reporter
  s ← driver wait_for_acquisition
  if is_success s then single_data hs x y else single_wait_failed s

-- The abort listener is told of no socket yet when the wait for it ends at once: its condition holds
-- from the start.
pub get_single_scan : FitsHeaders → ℤ → ℤ → M ℕ
unfolding single_started
get_single_scan hs x y = do
  perform spawn_listener
  perform (sleep 100)
  perform (call get_acquisition_timings)
  s ← driver start_acquisition
  if is_success s then single_started hs x y else (do
    perform (send start_error)
    driver abort_acquisition
    perform shutdown_listener
    perform join_listener
    ret 1)

-- The wait of the series for a new image: polls with a millisecond of sleep, until ten seconds have
-- passed on the clock. A poll lasts a millisecond at least, so 11000 polls are more than it makes.
-- `false` where it gives up.
pub poll : M Bool → Status → M Bool
poll rest no_new_data = do
  perform (sleep 1)
  expired ← perform read_clock
  if expired.flag then ret false else rest
poll rest _ = ret true

pub wait_new_data : ℕ → M Bool
unfolding poll
wait_new_data zero = ret false
wait_new_data (suc polls) =
    let rest = wait_new_data polls in driver get_number_new_images >>= poll rest

abbrev pub max_polls : ℕ
max_polls = 11000

-- Every way out of the series after the reporter is started ends the threads.
series_failed : M (Unit {0})
unfolding end_threads
series_failed = do driver abort_acquisition; perform unlock; end_threads

series_wait_failed : ℤ → ℤ → Status → M ℕ
unfolding series_failed
series_wait_failed n cur s = do
  series_failed
  aborted ← perform read_abort_set
  perform
      (send (if aborted.flag then series_aborted_by_user cur n s else series_wait_error cur n s))
  ret 1

-- `cur` is cur_img_in_series; the result is 0 where the loop goes on.
series_save : FitsHeaders → ℤ → ℤ → M ℕ
unfolding save_as_fits series_failed
series_save hs x y = do
  saved ← save_as_fits hs x y
  if saved.0 == 0 then ret 0 else (do series_failed; ret 1)

pub series_data : FitsHeaders → ℤ → ℤ → ℤ → ℤ → M ℕ
unfolding series_save series_failed
series_data hs x y n cur = do
  s ← driver (get_images cur cur (x *ℤ y))
  if is_success s
      then series_save hs x y
      else (do series_failed; perform (send (series_data_error cur n s)); ret 1)

pub series_new_data : FitsHeaders → ℤ → ℤ → ℤ → ℤ → M ℕ
unfolding series_failed
series_new_data hs x y n cur = do
  arrived ← wait_new_data max_polls
  if arrived
      then series_data hs x y n cur
      else (do series_failed; perform (send (series_wait_error cur n success)); ret 1)

-- One round of the loop.
pub series_image : FitsHeaders → ℤ → ℤ → ℤ → ℤ → M ℕ
unfolding series_wait_failed
series_image hs x y n cur = do
  s ← driver wait_for_acquisition
  if is_success s then series_new_data hs x y n cur else series_wait_failed n cur s

-- `left` images are to be taken, of which the next is number `cur`.
pub series_loop : FitsHeaders → ℤ → ℤ → ℤ → ℕ → ℕ → M ℕ
series_loop hs x y n zero cur = ret 0
series_loop hs x y n (suc left) cur =
    let rest = series_loop hs x y n left (cur + 1) in
    do c ← series_image hs x y n (pos cur); if c == 0 then rest else ret c

-- The end of the series, where every image is saved. The number of the last image is that of the
-- images, since a command asks for one at least.
pub series_end : ℤ → ℕ → M ℕ
unfolding end_threads
series_end n c =
    if c == 0
    then (do
      perform unlock
      end_threads
      perform (send (series_done n n))
      driver abort_acquisition
      ret 0)
    else ret c

pub get_rta_scan : FitsHeaders → ℤ → ℤ → ℤ → M ℕ
get_rta_scan hs x y n = do
  perform spawn_listener
  perform (sleep 100)
  perform (call get_acquisition_timings)
  s ← driver start_acquisition
  if is_success s
      then (do
        perform lock
        perform spawn_reporter
        c ← series_loop hs x y n (pos_part n) 1
        series_end n c)
      else (do
        perform (send (start_error_series s))
        driver abort_acquisition
        perform shutdown_listener
        perform join_listener
        ret 1)
