-- ===== src/Timing/Tests.antt =====
-- The tick of an exposure of four seconds, and of one of an hour.
use andor2k.Base.{◌≡◌, refl, pos}
use andor2k.Timing.{exp2tick_every}

four_seconds : exp2tick_every (pos 4000) ≡ pos 1333
unfolding exp2tick_every
four_seconds = refl
