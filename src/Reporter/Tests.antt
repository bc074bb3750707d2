-- ===== src/Reporter/Tests.antt =====
-- A reporter that gets the mutex at its third try.
use andor2k.Base.{if◌then◌else◌, [], ◌≡◌, refl, some, Bool, true, false, leb, pos}
use andor2k.Driver.{Environment, Event, success, try_lock}
use andor2k.Reporter.{report}
use andor2k.Reporter.Sends.{reports}

abbrev is_try : Event → Bool
is_try try_lock = true
is_try _ = false

abbrev busy : Environment
busy h e = record {
  status = success;
  flag = if is_try e then leb 2 (reports h) else false;
  int1 = pos 750;
  int2 = pos 0;
  float1 = 0;
  float2 = 0;
  float3 = 0;
  text = [];
  headers = [];
}

done_in_three : (report 3 (pos 3000) (pos 1000) busy []).0 ≡ some (pos 100)
unfolding report
done_in_three = refl
