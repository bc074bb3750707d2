-- ===== src/Cooling/Targets.antt =====
-- The temperature that src/cooling.cpp tells the camera is the one that it is given, and
-- src/sys_shutdown.cpp tells none.
use andor2k.Base.{ℕ, zero, suc, ◌≡◌, ◌∷◌, Bool, true, false, none, some, Option, arith, ℤ}
use andor2k.Driver.{
  ◌>>◌, ◌>>=◌, driver, perform, Status, call, sleep, send, read_clock, get_temperature,
  set_temperature, cooler_on, cooling_begun, cooling_progress, get_status,
}
use andor2k.Driver.Targets.{in_limits, IsSafe, IsSafe->>=}
use andor2k.Cooling.{
  max_warming_rounds, report, cooling_rounds, cool_to_temperature, max_cooling_rounds,
  system_shutdown, warming_rounds, warm_up, switch_cooler_off, stop_acquiring, finish_shutdown,
}

cooling_rounds-IsSafe :
    (socket : Bool) (rounds : ℕ) (s : Status) (temp : ℤ)
    → IsSafe (cooling_rounds socket rounds s temp)
unfolding cooling_rounds
cooling_rounds-IsSafe socket zero s temp env h q = q
cooling_rounds-IsSafe true (suc rounds) s temp env h q =
    let h2 = sleep 5000 ∷ read_clock ∷ send (cooling_progress s temp) ∷ h in
    let r = env h2 (call get_temperature) in
    ground
      (arith, cooling_rounds-IsSafe true rounds r.status r.int1 env (call get_temperature ∷ h2))
cooling_rounds-IsSafe false (suc rounds) s temp env h q =
    let h2 = sleep 5000 ∷ read_clock ∷ h in
    let r = env h2 (call get_temperature) in
    ground
      (arith, cooling_rounds-IsSafe false rounds r.status r.int1 env (call get_temperature ∷ h2))

pub cool_to_temperature-IsSafe :
    (socket : Bool) (temp_c : ℤ)
    → in_limits temp_c ≡ true
    → IsSafe (cool_to_temperature socket temp_c)
unfolding cool_to_temperature
cool_to_temperature-IsSafe socket temp_c ok env h q =
    let first = env h (call get_temperature) in
    let h1 = (report socket (cooling_begun first.int1) env (call get_temperature ∷ h)).1 in
    let h2 = call cooler_on ∷ call (set_temperature temp_c) ∷ h1 in
    let r = env h2 (call get_temperature) in
    ground (
      arith,
      cooling_rounds-IsSafe socket max_cooling_rounds r.status r.int1 env
          (call get_temperature ∷ h2),
    )

warming_rounds-IsSafe : (rounds : ℕ) → IsSafe (warming_rounds rounds)
unfolding warming_rounds
warming_rounds-IsSafe zero env h q = q
warming_rounds-IsSafe (suc rounds) env h q =
    ground
      (arith, warming_rounds-IsSafe rounds env (read_clock ∷ call get_temperature ∷ sleep 5000 ∷ h))

warm_up-IsSafe : (first : ℤ) → IsSafe (warm_up first)
unfolding warm_up
warm_up-IsSafe first env h q = ground (arith, warming_rounds-IsSafe max_warming_rounds env h q)

switch_cooler_off-IsSafe : IsSafe switch_cooler_off
unfolding switch_cooler_off
switch_cooler_off-IsSafe env h q = ground arith

stop_acquiring-IsSafe : IsSafe stop_acquiring
unfolding stop_acquiring
stop_acquiring-IsSafe env h q = ground arith

finish_shutdown-IsSafe : (warmed : Option (Unit {0})) → IsSafe (finish_shutdown warmed)
unfolding finish_shutdown
finish_shutdown-IsSafe none env h q = q
finish_shutdown-IsSafe (some _) env h q = q

-- The shutdown, from the first temperature on.
warm_and_finish-IsSafe :
    (first : ℤ) → IsSafe (switch_cooler_off >> (warm_up first >>= finish_shutdown))
warm_and_finish-IsSafe first =
    IsSafe->>= switch_cooler_off (λ _. warm_up first >>= finish_shutdown) switch_cooler_off-IsSafe
      (λ _.
        IsSafe->>= (warm_up first) finish_shutdown (warm_up-IsSafe first) finish_shutdown-IsSafe)

pub system_shutdown-IsSafe : IsSafe system_shutdown
unfolding system_shutdown
system_shutdown-IsSafe =
    IsSafe->>= stop_acquiring
      (λ _.
        driver get_status
        >> (perform (call get_temperature) >>= λ first.
            switch_cooler_off >> (warm_up first.int1 >>= finish_shutdown)))
      stop_acquiring-IsSafe
      (λ _ env h q.
        let h1 = call get_status ∷ h in
        warm_and_finish-IsSafe (env h1 (call get_temperature)).int1 env (call get_temperature ∷ h1)
          q)
