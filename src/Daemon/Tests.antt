-- ===== src/Daemon/Tests.antt =====
-- A daemon with one client.
use andor2k.Base.{◌∷◌, [], ℕ, ◌≡◌, refl, true, some, pos, negsuc}
use andor2k.Base.Text.{Bytes, codes, starts_with, strtol, tokens}
use andor2k.Params.{kinetic_series, set_defaults}
use andor2k.Params.Samples.{no_floats, defaults}
use andor2k.Driver.{
  Status, success, temp_stabilized, Event, call, Environment, History, get_temperature, receive,
}
use andor2k.Driver.Targets.{all_safe}
use andor2k.Aristarchos.{c_string}
use andor2k.Cooling.{cool_to_temperature, cooling_rounds, system_shutdown}
use andor2k.Daemon.Settings.{set_param_value}
use andor2k.Daemon.{chat, main, resolve_command, command_of, shutdown}
use andor2k.Daemon.Limits
use andor2k.Daemon.Leaving
use andor2k.Daemon.Power
use andor2k.Daemon.Power.{is_shut_down, is_accept}

abbrev status_of : Event → Status
status_of (call get_temperature) = temp_stabilized
status_of _ = success

-- Every call succeeds, the camera is at its target, and the client sends a text.
abbrev client : Bytes → Environment
client text h e = record {
  status = status_of e;
  flag = true;
  int1 = pos 10;
  int2 = pos 0;
  float1 = 0;
  float2 = 0;
  float3 = 0;
  text = text;
  headers = [];
}

abbrev leaving : Environment
leaving = client (codes "shutdown")

set_mode :
    (resolve_command 0 no_floats (codes "setparam acqmode=3 hsspeed=x") defaults leaving []).0
    ≡ (some (pos 0), record defaults { acquisition_mode = kinetic_series; hsspeed = pos 0 })
unfolding resolve_command starts_with strtol tokens set_param_value
set_mode = refl

too_warm :
    (resolve_command 0 no_floats (codes "settemp 11") defaults leaving []).0
    ≡ (some (pos 1), defaults)
unfolding resolve_command starts_with strtol
too_warm = refl

main-IsSafe_example :
    all_safe (main 2 2 0 no_floats defaults (client (codes "settemp -30")) []).1 ≡ true
main-IsSafe_example =
    Limits.main-IsSafe 2 2 0 no_floats defaults (client (codes "settemp -30")) [] refl

told_to_leave : (chat 2 0 no_floats defaults leaving []).0.0 ≡ some (negsuc 0)
unfolding chat starts_with c_string
told_to_leave = refl

chat-shutdown_example :
    (h' : History) × ((chat 2 0 no_floats defaults leaving []).1 ≡ receive ∷ h')
    × (command_of (c_string (leaving h' receive).text) ≡ shutdown)
chat-shutdown_example = Leaving.chat-shutdown 2 0 no_floats defaults leaving [] told_to_leave

left : (main 2 2 0 no_floats defaults leaving []).0 ≡ some (pos 0)
unfolding main starts_with set_defaults cool_to_temperature cooling_rounds system_shutdown c_string
left = refl

abbrev served : ℕ
served = 0

main-Ends_example :
    (served ≡ 0 → is_shut_down (main 2 2 0 no_floats defaults leaving []).1 ≡ true)
    × (served ≡ 1 → is_accept (main 2 2 0 no_floats defaults leaving []).1 ≡ true)
main-Ends_example = Power.main-Ends 2 2 0 no_floats defaults leaving [] served left
