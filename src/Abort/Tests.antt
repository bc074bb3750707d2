-- ===== src/Abort/Tests.antt =====
-- A listener that gets a message.
use andor2k.Base.{[], ◌≡◌, refl, true, pos}
use andor2k.Driver.{Environment, success}
use andor2k.Abort.{abort_listener}
use andor2k.Abort.Signal.{ends_cancelled}

abbrev talking : Environment
talking h e = record {
  status = success;
  flag = true;
  int1 = pos 5;
  int2 = pos 0;
  float1 = 0;
  float2 = 0;
  float3 = 0;
  text = [];
  headers = [];
}

cancelled_last : ends_cancelled (abort_listener talking []).1 ≡ true
unfolding abort_listener
cancelled_last = refl
