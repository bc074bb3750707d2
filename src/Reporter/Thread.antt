-- ===== src/Reporter/Thread.antt =====
-- ThreadReporter of src/get_acquisition.cpp: the thread that reports the progress of one image of a
-- kinetic series until it is told to stop. What is printed is left out, and of a message only the
-- percentages are kept.
pub mod Spaced
mod Tests
use andor2k.Base.{
  ℕ, zero, suc, Bool, true, false, Option, none, some, if◌then◌else◌, ℤ, pos, pos_part, ◌/ℤ◌, ltb_ℤ,
  to_int32,
}
use andor2k.Driver.{
  M, ◌>>=◌, ◌>>◌, ret, perform, sleep, read_stop_reporting, read_finished, read_thread_times,
  send_thread_progress,
}
use andor2k.Reporter.{percentage}
use andor2k.Timing.{min_tick, long_tick}

-- The milliseconds between two messages, for an exposure in milliseconds.
unfoldable pub exposure2tick_every : ℤ → ℤ
exposure2tick_every iexp =
    if ltb_ℤ iexp min_tick
    then to_int32 iexp
    else if ltb_ℤ iexp (pos 2000)
    then to_int32 (iexp /ℤ pos 2)
    else if ltb_ℤ iexp (pos 5000)
    then to_int32 (iexp /ℤ pos 3)
    else if ltb_ℤ iexp (pos 10000)
    then to_int32 (iexp /ℤ pos 4)
    else if ltb_ℤ iexp (pos 20000)
    then to_int32 (iexp /ℤ pos 6)
    else if ltb_ℤ iexp (pos 60000)
    then to_int32 (iexp /ℤ pos 10)
    else if ltb_ℤ iexp (pos 120000)
    then to_int32 (iexp /ℤ pos 15)
    else if ltb_ℤ iexp (pos 300000)
    then to_int32 (iexp /ℤ pos 20)
    else long_tick iexp

-- stop_reporting_thread || acquisition_thread_finished
pub told_to_stop : M Bool
told_to_stop = do
  stopping ← perform read_stop_reporting
  if stopping.flag then ret true else (do finished ← perform read_finished; ret finished.flag)

-- The body of the loop: whether it goes on.
pub thread_round : ℤ → ℤ → ℤ → M Bool
unfolding told_to_stop
thread_round every_ms exposure_ms total_ms = do
  times ← perform read_thread_times
  perform
      (send_thread_progress (percentage times.int1 exposure_ms) (percentage times.int2 total_ms))
  stopping ← told_to_stop
  if stopping then ret false else (do perform (sleep (pos_part every_ms)); ret true)

-- The loop, for so many rounds at most; whether it has ended.
pub thread_rounds : ℤ → ℤ → ℤ → ℕ → M Bool
unfolding thread_round
thread_rounds every_ms exposure_ms total_ms zero = ret false
thread_rounds every_ms exposure_ms total_ms (suc rounds) =
    let more = thread_rounds every_ms exposure_ms total_ms rounds in
    do
      stopping ← told_to_stop
      if stopping
          then ret true
          else (do on ← thread_round every_ms exposure_ms total_ms; if on then more else ret true)

-- The constructor's tick, and `report`.
unfoldable pub thread_report : ℕ → ℤ → ℤ → M Bool
unfolding exposure2tick_every thread_rounds
thread_report rounds exposure_ms total_ms =
    thread_rounds (exposure2tick_every exposure_ms) exposure_ms total_ms rounds
