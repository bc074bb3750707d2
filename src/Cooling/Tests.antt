-- ===== src/Cooling/Tests.antt =====
-- Cooling a camera that answers at once and one that never does, by a clock that adds up the sleeps.
use andor2k.Base.{arith, ◌*◌, ◌≡◌, refl, leb, [], ◌∷◌, some, true, ℤ, pos, negsuc, Bool}
use andor2k.Driver.{
  Environment, Event, History, Reply, Status, temp_stabilized, success, call, get_temperature,
  shut_down,
}
use andor2k.Cooling.{cool_to_temperature, cooling_rounds, system_shutdown}
use andor2k.Driver.Clock.{slept, Punctual}
use andor2k.Cooling.Target
use andor2k.Cooling.Ends

abbrev says : Status → ℤ → Bool → Reply
says s temp late = record {
  status = s;
  flag = late;
  int1 = temp;
  int2 = pos 0;
  float1 = 0;
  float2 = 0;
  float3 = 0;
  text = [];
  headers = [];
}

abbrev answer : Bool → Event → Reply
answer late (call get_temperature) = says temp_stabilized (negsuc 49) late
answer late _ = says success (pos 0) late

-- The camera is at -50 degrees from the start; the clock is late after 2760 seconds.
abbrev cold : Environment
cold h e = answer (leb 2760000 (slept h)) e

-- The camera stays at 0 degrees.
abbrev stuck : Environment
stuck h e = says success (pos 0) (leb 1801000 (slept h))

cold-Punctual : Punctual cold (46 * 60 * 1000)
cold-Punctual h late = ground arith

stuck-Punctual : Punctual stuck (1801 * 1000)
stuck-Punctual h late = ground arith

cold_ok : (cool_to_temperature true (negsuc 49) cold []).0 ≡ some 0
unfolding cool_to_temperature cooling_rounds
cold_ok = refl

cool_to_temperature-reached_example :
    let h' = (cool_to_temperature true (negsuc 49) cold []).1 in
    (Target.cooler h' ≡ record { target = some (negsuc 49); running = true })
    × (Target.reading cold h' ≡ temp_stabilized)
cool_to_temperature-reached_example =
    Target.cool_to_temperature-reached true (negsuc 49) cold [] cold_ok

system_shutdown-returns_example :
    (h' : History) × (system_shutdown stuck [] ≡ (some 0, call shut_down ∷ h'))
system_shutdown-returns_example = Ends.system_shutdown-returns stuck [] stuck-Punctual
