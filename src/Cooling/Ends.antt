-- ===== src/Cooling/Ends.antt =====
-- The ends of the loops of src/cooling.cpp and src/sys_shutdown.cpp, by a clock that keeps time.
use andor2k.Base.{
  Option, ℕ, zero, suc, ◌+◌, ◌*◌, ◌≤◌, ◌≡◌, ◌≢◌, refl, Bool, none, some, ◌∷◌, arith, ℤ,
}
use andor2k.Driver.{
  Environment, History, Status, call, sleep, read_clock, get_temperature, set_temperature,
  cooler_on, cooling_progress,
}
use andor2k.Cooling.{
  get_status, shut_down, cooling_begun, Message, report, cooling_rounds, cool_to_temperature,
  warming_rounds, warm_up, system_shutdown, stop_acquiring, switch_cooler_off, finish_shutdown,
}
use andor2k.Driver.Clock.{slept, Punctual}

slept-report :
    (socket : Bool) (m : Message) (env : Environment) (h : History)
    → slept (report socket m env h).1 ≡ slept h
slept-report socket m env h = ground arith

cooling_rounds-returns :
    (socket : Bool) (limit rounds : ℕ) (s : Status) (temp : ℤ) (env : Environment) (h : History)
    → Punctual env limit
    → limit ≤ slept h + 5000 * rounds
    → (cooling_rounds socket (suc rounds) s temp env h).0 ≢ none
unfolding cooling_rounds
cooling_rounds-returns socket limit zero s temp env h p enough =
    let h1 = (report socket (cooling_progress s temp) env h).1 in
    λ e. ground (arith, p h1, slept-report socket (cooling_progress s temp) env h)
cooling_rounds-returns socket limit (suc rounds) s temp env h p enough =
    let h1 = (report socket (cooling_progress s temp) env h).1 in
    let h2 = sleep 5000 ∷ read_clock ∷ h1 in
    let r = env h2 (call get_temperature) in
    let rest =
      cooling_rounds-returns socket limit rounds r.status r.int1 env (call get_temperature ∷ h2)
        p in
    λ e. ground (arith, rest, slept-report socket (cooling_progress s temp) env h)

warming_rounds-returns :
    (limit rounds : ℕ) (env : Environment) (h : History)
    → Punctual env limit
    → limit ≤ slept h + 5000 * suc rounds
    → (warming_rounds (suc rounds) env h).0 ≢ none
unfolding warming_rounds
warming_rounds-returns limit zero env h p enough =
    λ e. ground (arith, p (call get_temperature ∷ sleep 5000 ∷ h))
warming_rounds-returns limit (suc rounds) env h p enough =
    let h1 = call get_temperature ∷ sleep 5000 ∷ h in
    λ e. ground (arith, warming_rounds-returns limit rounds env (read_clock ∷ h1) p)

-- With a clock that says that the time is over once 46 minutes have been slept, cool_to_temperature
-- returns: the rounds that the loop is given suffice.
pub cool_to_temperature-returns :
    (socket : Bool) (temp_c : ℤ) (env : Environment) (h : History)
    → Punctual env (slept h + 46 * 60 * 1000)
    → (cool_to_temperature socket temp_c env h).0 ≢ none
unfolding cool_to_temperature
cool_to_temperature-returns socket temp_c env h p =
    let first = env h (call get_temperature) in
    let (u, h1) = report socket (cooling_begun first.int1) env (call get_temperature ∷ h) in
    let h2 = call cooler_on ∷ call (set_temperature temp_c) ∷ h1 in
    let r = env h2 (call get_temperature) in
    let loop =
      cooling_rounds-returns socket (slept h + 46 * 60 * 1000) 552 r.status r.int1 env
        (call get_temperature ∷ h2) p in
    λ e.
      ground
        (arith, loop, slept-report socket (cooling_begun first.int1) env (call get_temperature ∷ h))

warm_up-returns :
    (first : ℤ) (env : Environment) (h : History)
    → Punctual env (slept h + 1801 * 1000)
    → (warm_up first env h).0 ≢ none
unfolding warm_up
warm_up-returns first env h p =
    let loop = warming_rounds-returns (slept h + 1801 * 1000) 360 env h p in
    λ e. ground (arith, loop)

slept-stop_acquiring : (env : Environment) (h : History) → slept (stop_acquiring env h).1 ≡ slept h
unfolding stop_acquiring
slept-stop_acquiring env h = ground arith

slept-switch_cooler_off :
    (env : Environment) (h : History) → slept (switch_cooler_off env h).1 ≡ slept h
unfolding switch_cooler_off
slept-switch_cooler_off env h = ground arith

finish_shutdown_last :
    (o : Option (Unit {0})) (env : Environment) (h : History)
    → o ≢ none
    → finish_shutdown o env h ≡ (some 0, call shut_down ∷ sleep 1000 ∷ h)
unfolding finish_shutdown
finish_shutdown_last none env h n = absurd (n refl)
finish_shutdown_last (some _) env h n = refl

-- With a clock that says that the time is over once 1801 seconds have been slept, system_shutdown
-- returns 0, whatever the camera answers, and the last thing that it does is to shut the camera down.
pub system_shutdown-returns :
    (env : Environment) (h : History)
    → Punctual env (slept h + 1801 * 1000)
    → (h' : History) × (system_shutdown env h ≡ (some 0, call shut_down ∷ h'))
unfolding system_shutdown
system_shutdown-returns env h p =
    let (u, h1) = stop_acquiring env h in
    let h2 = call get_status ∷ h1 in
    let first = env h2 (call get_temperature) in
    let (v, h3) = switch_cooler_off env (call get_temperature ∷ h2) in
    let same : slept h3 ≡ slept h = omega (
      arith,
      slept-switch_cooler_off env (call get_temperature ∷ h2),
      slept-stop_acquiring env h,
    ) in
    let (o, h4) = warm_up first.int1 env h3 in
    (sleep 1000 ∷ h4, finish_shutdown_last o env h4 (warm_up-returns first.int1 env h3 (rw same p)))

finish_shutdown_off :
    (warmed : Option (Unit {0})) (env : Environment) (h : History)
    → (finish_shutdown warmed env h).0 ≢ none
    → (h' : History) × ((finish_shutdown warmed env h).1 ≡ call shut_down ∷ h')
unfolding finish_shutdown
finish_shutdown_off none env h n = absurd (n refl)
finish_shutdown_off (some _) env h n = (sleep 1000 ∷ h, refl)

-- A shutdown that returns ends with the driver's ShutDown.
pub system_shutdown_last :
    (env : Environment) (h : History)
    → (system_shutdown env h).0 ≢ none
    → (h' : History) × ((system_shutdown env h).1 ≡ call shut_down ∷ h')
unfolding system_shutdown
system_shutdown_last env h n =
    let h1 = call get_status ∷ (stop_acquiring env h).1 in
    let first = env h1 (call get_temperature) in
    let r = warm_up first.int1 env (switch_cooler_off env (call get_temperature ∷ h1)).1 in
    finish_shutdown_off r.0 env r.1 n
