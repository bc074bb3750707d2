-- ===== src/Cooling.antt =====
-- src/cooling.cpp and src/sys_shutdown.cpp: cooling the camera, and shutting it down. What is printed
-- is left out.
pub mod Target
pub mod Ends
pub mod Targets
mod Tests
use andor2k.Base.{
  ℕ, zero, suc, Bool, true, false, ◌||◌, not, Option, none, some, if◌then◌else◌, ℤ, pos, ltb_ℤ,
  leb_ℤ, eqb_ℤ,
}
use andor2k.Driver.{
  Status, success, acquiring, temp_not_reached, temp_drift, temp_not_stabilized, temp_stabilized,
  is_success, Message, cooling_begun, cooling_target_error, cooling_cooler_error, cooling_progress,
  cooling_too_long, cooling_done, M, ◌>>=◌, ◌>>◌, ret, perform, driver, call, sleep, send,
  read_clock, get_status, get_temperature, set_temperature, is_cooler_on, cooler_on, cooler_off,
  shut_down, abort_acquisition,
}

abbrev pub is_stabilized : Status → Bool
is_stabilized temp_stabilized = true
is_stabilized _ = false

-- The socket is a pointer that may be null: `true` stands for a socket.
abbrev pub report : Bool → Message → M (Unit {0})
report socket m = if socket then (do perform (send m); ret tt) else ret tt

-- The loop, for so many rounds at most; `none` where these do not suffice. The test of the status has
-- the constant DRV_TEMP_OFF, which is not 0, as an operand: it always holds.
unfoldable pub cooling_rounds : Bool → ℕ → Status → ℤ → M (Option ℕ)
cooling_rounds socket zero s temp = ret none
cooling_rounds socket (suc rounds) s temp =
    let rest = cooling_rounds socket rounds in
    if is_stabilized s then (do report socket (cooling_done temp); ret (some 0)) else (do
      report socket (cooling_progress s temp)
      expired ← perform read_clock
      if expired.flag
          then (do report socket (cooling_too_long temp); ret (some 1))
          else (do perform (sleep 5000); r ← perform (call get_temperature); rest r.status r.int1))

-- The loop ends when 46 minutes are over, and each round but the last sleeps for five seconds.
abbrev pub max_cooling_rounds : ℕ
max_cooling_rounds = 553

unfoldable pub cool_to_temperature : Bool → ℤ → M (Option ℕ)
cool_to_temperature socket temp_c = do
  first ← perform (call get_temperature)
  report socket (cooling_begun first.int1)
  target ← driver (set_temperature temp_c)
  if is_success target
      then (do
        on ← driver cooler_on
        if is_success on
            then (do
              r ← perform (call get_temperature)
              cooling_rounds socket max_cooling_rounds r.status r.int1)
            else (do report socket (cooling_cooler_error on first.int1); ret (some 1)))
      else (do report socket (cooling_target_error target first.int1); ret (some 1))

abbrev pub shutdown_temperature : ℤ
shutdown_temperature = pos 5

abbrev pub is_acquiring : Status → Bool
is_acquiring acquiring = true
is_acquiring _ = false

-- The loop that waits for the camera to warm up.
unfoldable pub warming_rounds : ℕ → M (Option (Unit {0}))
warming_rounds zero = ret none
warming_rounds (suc rounds) =
    let rest = warming_rounds rounds in
    do
      perform (sleep 5000)
      r ← perform (call get_temperature)
      if leb_ℤ shutdown_temperature r.int1
          then ret (some tt)
          else (do expired ← perform read_clock; if expired.flag then ret (some tt) else rest)

-- The loop ends when 1801 seconds are over, and each round sleeps for five.
abbrev pub max_warming_rounds : ℕ
max_warming_rounds = 361

unfoldable pub switch_cooler_off : M (Unit {0})
switch_cooler_off = do
  r ← perform (call is_cooler_on)
  if is_success r.status
      then (if eqb_ℤ r.int1 (pos 0) then ret tt else (do driver cooler_off; ret tt))
      else ret tt

unfoldable pub stop_acquiring : M (Unit {0})
stop_acquiring = do
  state ← driver get_status
  if is_acquiring state then (do driver abort_acquisition; ret tt) else ret tt

unfoldable pub finish_shutdown : Option (Unit {0}) → M (Option ℕ)
finish_shutdown none = ret none
finish_shutdown (some _) = do perform (sleep 1000); driver shut_down; ret (some 0)

unfoldable pub warm_up : ℤ → M (Option (Unit {0}))
warm_up first =
    if ltb_ℤ first shutdown_temperature then warming_rounds max_warming_rounds else ret (some tt)

unfoldable pub system_shutdown : M (Option ℕ)
unfolding stop_acquiring switch_cooler_off warm_up finish_shutdown
system_shutdown = do
  stop_acquiring
  driver get_status
  first ← perform (call get_temperature)
  switch_cooler_off
  warmed ← warm_up first.int1
  finish_shutdown warmed
