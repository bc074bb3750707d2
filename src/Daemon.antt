-- ===== src/Daemon.antt =====
-- bin/andor2kd.cpp, with print_status and select_camera of src/andor_tools.cpp: the daemon. What is
-- printed is left out. A command is the string in the buffer, and the parameters are passed on from
-- one command to the next.
pub mod Settings
pub mod Limits
pub mod Leaving
pub mod Power
mod Tests
use andor2k.Base.{
  ℕ, zero, suc, Bool, true, false, ◌||◌, not, List, [], ◌∷◌, Option, none, some, ◌==◌,
  if◌then◌else◌, length, drop, ℤ, pos, negsuc, neg_ℕ, ltb_ℤ, leb_ℤ, eqb_ℤ, to_int32,
}
use andor2k.Base.Text.{Bytes, codes, starts_with, strtol, Conversion}
use andor2k.Params.{Platform, AndorParameters, set_defaults}
use andor2k.Headers.{FitsHeaders, no_headers}
use andor2k.Driver.{
  M, ◌>>=◌, ◌>>◌, ret, perform, driver, is_success, call, send, sleep, get_status, get_temperature,
  get_available_cameras, get_camera_handle, set_current_camera, initialize, listen, accept, receive,
  set_abort_exposure, invalid_command, status_report,
}
use andor2k.Driver.Targets.{andor_min_temp, andor_max_temp}
use andor2k.ImageCommand.{resolve_image_parameters, is_image_mode}
use andor2k.Setup.{setup_acquisition}
use andor2k.Kinetic.{get_acquisition}
use andor2k.Cooling.{cool_to_temperature, system_shutdown}
use andor2k.Aristarchos.{c_string}
use andor2k.Daemon.Settings.{set_param_value}

-- A status, where there is one: `none` stands for a function that does not return within the rounds it
-- is given, or whose behaviour is undefined.
abbrev pub Answer : Type 0
Answer = Option ℤ

abbrev pub answer : Option ℕ → Answer
answer none = none
answer (some c) = some (pos c)

refuse_command : M Answer
refuse_command = do perform (send invalid_command); ret (some (pos 1))

pub set_target : ℤ → M Answer
unfolding refuse_command
set_target target_temp =
    if ltb_ℤ target_temp andor_min_temp || ltb_ℤ andor_max_temp target_temp
    then refuse_command
    else (do status ← cool_to_temperature true target_temp; ret (answer status))

-- The `long` of the conversion becomes an `int`.
pub set_temperature_to : Option Conversion → M Answer
unfolding refuse_command set_target
set_temperature_to none = refuse_command
set_temperature_to (some c) =
    if c.out_of_range then refuse_command else set_target (to_int32 c.value)

pub set_temperature : Bytes → M Answer
unfolding starts_with strtol set_temperature_to refuse_command
set_temperature command =
    if starts_with (codes "settemp") command
    then set_temperature_to (strtol (drop 7 command))
    else refuse_command

-- The image, once the acquisition is set up; any status but 0 becomes 3.
pub take_image : ℕ → Platform → AndorParameters → ℕ × FitsHeaders × Option (ℤ × ℤ) → M Answer
take_image rounds pf p (status, hs, none) = ret (some (pos 2))
take_image rounds pf p (status, hs, some (width, height)) =
    if status == 0
    then (do
      acquired ← get_acquisition rounds pf p hs width height
      ret (elim acquired [ none ↦ none | some c ↦ some (if c == 0 then pos 0 else pos 3) ]))
    else ret (some (pos 2))

pub get_image : ℕ → Platform → Bytes → AndorParameters → M (Answer × AndorParameters)
unfolding take_image
get_image rounds pf command params =
    let (resolved, p) = resolve_image_parameters pf command params in
    if resolved == 0
    then (do
      setup ← setup_acquisition pf p (no_headers 100)
      taken ← take_image rounds pf p setup
      ret (taken, p))
    else ret (some (pos 1), p)

pub print_status : M Answer
print_status = do
  state ← driver get_status
  temperature ← perform (call get_temperature)
  perform (send (status_report state temperature.status temperature.int1))
  ret (some (pos 0))

-- An answer that leaves the parameters as they are.
abbrev pub keeping : AndorParameters → M Answer → M (Answer × AndorParameters)
keeping p m = do a ← m; ret (a, p)

abbrev pub settings_answer :
    AndorParameters → Option (ℕ × AndorParameters) → Answer × AndorParameters
settings_answer p none = (none, p)
settings_answer p (some (c, p')) = (some (pos c), p')

pub data Command : Type 0 where
  settemp shutdown status setparam image abort unknown : Command

-- The chain of `strncmp` tests on a command, in its order.
pub command_of : Bytes → Command
unfolding starts_with
command_of command =
    if starts_with (codes "settemp") command
    then settemp
    else if starts_with (codes "shutdown") command
    then shutdown
    else if starts_with (codes "status") command
    then Command.status
    else if starts_with (codes "setparam") command
    then setparam
    else if starts_with (codes "image") command
    then Command.image
    else if starts_with (codes "abort") command
    then abort
    else unknown

-- The branch of a command.
pub run_command : ℕ → Platform → Command → Bytes → AndorParameters → M (Answer × AndorParameters)
unfolding set_temperature print_status get_image
run_command rounds pf settemp command p = keeping p (set_temperature command)
run_command rounds pf shutdown command p = ret (some (neg_ℕ 100), p)
run_command rounds pf Command.status command p = keeping p print_status
run_command rounds pf setparam command p = do
  r ← set_param_value pf command p
  ret (settings_answer p r)
run_command rounds pf Command.image command p = get_image rounds pf command p
run_command rounds pf abort command p = do perform set_abort_exposure; ret (some (pos 0), p)
run_command rounds pf unknown command p = ret (some (pos 1), p)

pub resolve_command : ℕ → Platform → Bytes → AndorParameters → M (Answer × AndorParameters)
unfolding command_of run_command
resolve_command rounds pf command p = run_command rounds pf (command_of command) command p

-- The chat goes on after each answer but -100.
pub after_answer :
    (AndorParameters → M (Answer × AndorParameters))
    → Answer × AndorParameters
    → M (Answer × AndorParameters)
after_answer more (none, p) = ret (none, p)
after_answer more (some a, p) = if eqb_ℤ a (neg_ℕ 100) then ret (some (negsuc 0), p) else more p

-- So many messages of a client at most.
pub chat : ℕ → ℕ → Platform → AndorParameters → M (Answer × AndorParameters)
unfolding resolve_command after_answer
chat zero rounds pf p = ret (none, p)
chat (suc messages) rounds pf p =
    let more = chat messages rounds pf in
    do
      r ← perform receive
      if ltb_ℤ r.int1 (pos 1)
          then ret (some (pos 0), p)
          else resolve_command rounds pf (c_string r.text) p >>= after_answer more

-- How the loop over the clients ends: with a shutdown, or with a client that is not accepted.
pub data Served : Type 0 where
  shutdown_received : Served
  not_accepted : Served
  running : Served

pub after_chat : (AndorParameters → M Served) → Answer × AndorParameters → M Served
after_chat more (none, p) = ret running
after_chat more (some a, p) = if leb_ℤ (pos 0) a then more p else ret shutdown_received

-- So many clients at most, each with so many messages.
pub serve : ℕ → ℕ → ℕ → Platform → AndorParameters → M Served
unfolding chat after_chat
serve zero messages rounds pf p = ret running
serve (suc clients) messages rounds pf p =
    let more = serve clients messages rounds pf in
    do
      r ← perform accept
      if ltb_ℤ r.int1 (pos 0)
          then ret not_accepted
          else chat messages rounds pf p >>= after_chat more

-- The index of the camera, or -1.
pub select_camera : ℤ → M ℤ
select_camera num =
    if ltb_ℤ num (pos 0) then ret (negsuc 0) else if eqb_ℤ num (pos 0) then ret num else (do
      cameras ← perform (call get_available_cameras)
      if ltb_ℤ num cameras.int1
          then (do
            handle ← perform (call (get_camera_handle num))
            driver (set_current_camera handle.int1)
            ret num)
          else ret (negsuc 0))

abbrev pub initialize_to_temp : ℤ
initialize_to_temp = neg_ℕ 50

-- `system_shutdown` and the status that `main` returns.
pub finish : M Answer
finish = do done ← system_shutdown; ret (elim done [ none ↦ none | some _ ↦ some (pos 0) ])

pub after_serving : Served → M Answer
unfolding finish
after_serving shutdown_received = finish
after_serving not_accepted = ret (some (pos 1))
after_serving running = ret none

-- The server's socket; an exception of its constructor leads to the shutdown.
pub run_service : ℕ → ℕ → ℕ → Platform → AndorParameters → M Answer
unfolding serve after_serving finish
run_service clients messages rounds pf p = do
  listening ← perform listen
  if listening.flag then serve clients messages rounds pf p >>= after_serving else finish

pub after_cooling : M Answer → Option ℕ → M Answer
after_cooling service none = ret none
after_cooling service (some c) = if c == 0 then service else ret (some (pos 10))

pub cool_and_run : ℕ → ℕ → ℕ → Platform → AndorParameters → M Answer
unfolding run_service after_cooling
cool_and_run clients messages rounds pf p = do
  error ← driver (initialize p.initialization_dir)
  if is_success error
      then (do
        perform (sleep 2000)
        cool_to_temperature false initialize_to_temp
            >>= after_cooling (run_service clients messages rounds pf p))
      else ret (some (pos 10))

-- `main`, for a number of clients, of messages from each, and of rounds for a kinetic series; `blank`
-- has the values of the members that `set_defaults` leaves.
pub main : ℕ → ℕ → ℕ → Platform → AndorParameters → M Answer
unfolding select_camera cool_and_run
main clients messages rounds pf blank =
    let params = set_defaults blank in
    if is_image_mode params.read_out_mode
    then (do
      camera ← select_camera params.camera_num
      if ltb_ℤ camera (pos 0)
          then ret (some (pos 10))
          else cool_and_run clients messages rounds pf params)
    else ret (some (pos 10))

-- The handlers of the signals, which then exit with the number of the signal.
pub kill_daemon : ℤ → M Answer
kill_daemon signal = do
  done ← system_shutdown
  ret (elim done [ none ↦ none | some _ ↦ some signal ])
