-- ===== src/Scan/Quiet.antt =====
-- The threads and the mutex of src/get_single_scan.cpp and src/get_rta_scan.cpp.
use andor2k.Base.{
  pos_part, ◌∷◌, ℕ, zero, suc, ◌+◌, ◌≡◌, refl, true, some, arith, ◌==◌, if◌then◌else◌, ℤ, pos,
}
use andor2k.Headers.{FitsHeaders}
use andor2k.Driver.{
  Environment, History, call, sleep, read_clock, spawn_reporter, spawn_listener, lock,
  start_acquisition, get_acquisition_timings, wait_for_acquisition, get_number_new_images,
}
use andor2k.Driver.Threads.{
  absent, Threads, replay_reached, quiet, IsOrderly, IsQuiet, IsReached, orderly-IsQuiet,
}
use andor2k.Scan.{
  get_single_scan, get_rta_scan, wait_new_data, series_image, series_new_data, series_data,
  series_loop, series_end, max_polls,
}

-- A single scan in which the shutdown reaches the listener.
pub get_single_scan-IsOrderly :
    (hs : FitsHeaders) (x y : ℤ) (env : Environment) (h : History)
    → IsOrderly h
    → IsOrderly (get_single_scan hs x y env h).1
unfolding get_single_scan
get_single_scan-IsOrderly hs x y env h q = ground arith

-- During a series the mutex is held and both threads run.
abbrev running : Threads
running = record {
  locked = true;
  reporter = true;
  listener = true;
  listening = true;
  progress = absent;
}

-- After a part of a series that returns `c`: the threads run on if it is 0, and else are ended.
abbrev threads_after : ℕ → Threads
threads_after c = if c == 0 then running else quiet

replay-wait_new_data :
    (polls : ℕ) (env : Environment) (h : History)
    → replay_reached (wait_new_data polls env h).1 ≡ replay_reached h
unfolding wait_new_data
replay-wait_new_data zero env h = refl
replay-wait_new_data (suc polls) env h =
    ground (
      arith,
      replay-wait_new_data polls env (read_clock ∷ sleep 1 ∷ call get_number_new_images ∷ h),
    )

module _ (hs : FitsHeaders) (x y n : ℤ) (env : Environment) where
  replay-series_data :
      (cur : ℤ) (h : History)
      → replay_reached h ≡ some running
      → replay_reached (series_data hs x y n cur env h).1
        ≡ some (threads_after (series_data hs x y n cur env h).0)
  unfolding series_data
  replay-series_data cur h r = ground arith

  replay-series_new_data :
      (cur : ℤ) (h : History)
      → replay_reached h ≡ some running
      → replay_reached (series_new_data hs x y n cur env h).1
        ≡ some (threads_after (series_new_data hs x y n cur env h).0)
  unfolding series_new_data
  replay-series_new_data cur h r = ground (
    arith,
    replay-wait_new_data max_polls env h,
    replay-series_data cur (wait_new_data max_polls env h).1,
  )

  replay-series_image :
      (cur : ℤ) (h : History)
      → replay_reached h ≡ some running
      → replay_reached (series_image hs x y n cur env h).1
        ≡ some (threads_after (series_image hs x y n cur env h).0)
  unfolding series_image
  replay-series_image cur h r =
      ground (arith, replay-series_new_data cur (call wait_for_acquisition ∷ h))

  replay-series_loop :
      (left cur : ℕ) (h : History)
      → replay_reached h ≡ some running
      → replay_reached (series_loop hs x y n left cur env h).1
        ≡ some (threads_after (series_loop hs x y n left cur env h).0)
  unfolding series_loop
  replay-series_loop zero cur h r = r
  replay-series_loop (suc left) cur h r = ground (
    arith,
    replay-series_image (pos cur) h r,
    replay-series_loop left (cur + 1) (series_image hs x y n (pos cur) env h).1,
  )

pub get_rta_scan-IsOrderly :
    (hs : FitsHeaders) (x y n : ℤ) (env : Environment) (h : History)
    → IsOrderly h
    → IsOrderly (get_rta_scan hs x y n env h).1
unfolding get_rta_scan series_end
get_rta_scan-IsOrderly hs x y n env h q = ground (
  arith,
  replay-series_loop hs x y n env (pos_part n) 1 (
      spawn_reporter
      ∷ lock
      ∷ call start_acquisition
      ∷ call get_acquisition_timings
      ∷ sleep 100
      ∷ spawn_listener
      ∷ h),
)

-- Where the abort listener waits no more after a shutdown of its socket: a series of any number of
-- images, begun with nothing running, never blocks on a thread or the mutex, and wherever it fails it
-- returns with both threads joined and the mutex free.
pub get_rta_scan-IsQuiet :
    (hs : FitsHeaders) (x y n : ℤ) (env : Environment) (h : History)
    → IsReached env
    → IsQuiet env h
    → IsQuiet env (get_rta_scan hs x y n env h).1
get_rta_scan-IsQuiet hs x y n env h reached =
    orderly-IsQuiet env h (get_rta_scan hs x y n env h).1 reached
      (get_rta_scan-IsOrderly hs x y n env h)
