-- ===== src/Timing.antt =====
-- The ticks of the reporters: exp2tick_every of src/acquisition_reporter.cpp, of which
-- exposure2tick_every in src/get_acquisition.cpp is a copy. A `long` is converted to the `int` that is
-- returned.
pub mod Tick
mod Tests
use andor2k.Base.{ℤ, pos, ◌/ℤ◌, ltb_ℤ, to_int32, if◌then◌else◌}

abbrev pub min_tick : ℤ
min_tick = pos 500

abbrev pub max_tick : ℤ
max_tick = pos 5000

-- Where the exposure takes five minutes at least: `nr` is an `int`.
pub long_tick : ℤ → ℤ
long_tick iexp = to_int32 (iexp /ℤ to_int32 (iexp /ℤ max_tick))

unfoldable pub exp2tick_every : ℤ → ℤ
unfolding long_tick
exp2tick_every iexp =
    if ltb_ℤ iexp min_tick
    then to_int32 iexp
    else if ltb_ℤ iexp (pos 2000)
    then to_int32 (iexp /ℤ pos 2)
    else if ltb_ℤ iexp (pos 5000)
    then to_int32 (iexp /ℤ pos 3)
    else if ltb_ℤ iexp (pos 10000)
    then to_int32 (iexp /ℤ pos 4)
    else if ltb_ℤ iexp (pos 20000)
    then to_int32 (iexp /ℤ pos 6)
    else if ltb_ℤ iexp (pos 60000)
    then to_int32 (iexp /ℤ pos 10)
    else if ltb_ℤ iexp (pos 120000)
    then to_int32 (iexp /ℤ pos 15)
    else if ltb_ℤ iexp (pos 300000)
    then to_int32 (iexp /ℤ pos 20)
    else long_tick iexp
