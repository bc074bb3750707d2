-- ===== src/Daemon/Limits.antt =====
-- The temperatures that the daemon of bin/andor2kd.cpp tells the camera.
use andor2k.Base.{
  ◌∷◌, ℕ, zero, suc, ◌≡◌, refl, true, false, ◌||◌, some, none, Option, arith, ◌==◌, ℤ, pos, negsuc,
  neg_ℕ, ltb_ℤ, leb_ℤ, eqb_ℤ, Bool-cases, inl, inr, to_int32, drop,
}
use andor2k.Base.Text.{Bytes, codes, starts_with, strtol, Conversion}
use andor2k.Params.{Platform, AndorParameters, set_defaults}
use andor2k.Headers.{FitsHeaders, no_headers}
use andor2k.Driver.{M, call, listen, accept, receive, initialize, sleep, is_success}
use andor2k.Driver.Targets.{in_limits, andor_min_temp, andor_max_temp, IsSafe}
use andor2k.ImageCommand.{resolve_image_parameters}
use andor2k.Setup.{setup_acquisition}
use andor2k.Setup.Targets.{setup_acquisition-IsSafe}
use andor2k.Kinetic.Targets.{get_acquisition-IsSafe}
use andor2k.Cooling.{cool_to_temperature}
use andor2k.Cooling.Targets.{cool_to_temperature-IsSafe, system_shutdown-IsSafe}
use andor2k.Aristarchos.{c_string}
use andor2k.Daemon.Settings.Targets.{set_param_value-IsSafe}
use andor2k.Daemon.{
  Answer, set_target, set_temperature_to, set_temperature, take_image, get_image, print_status,
  Command, settemp, shutdown, setparam, abort, unknown, command_of, run_command, resolve_command,
  after_answer, chat, Served, shutdown_received, not_accepted, running, after_chat, serve,
  initialize_to_temp, finish, after_serving, run_service, after_cooling, cool_and_run, main,
}

-- What passes the tests of the command is within the limits.
passed-in_limits :
    (t : ℤ) → (ltb_ℤ t andor_min_temp || ltb_ℤ andor_max_temp t) ≡ false → in_limits t ≡ true
passed-in_limits (pos n) e = ground (arith, e)
passed-in_limits (negsuc n) e = ground (arith, e)

set_target-IsSafe : (t : ℤ) → IsSafe (set_target t)
unfolding set_target
set_target-IsSafe t env h q = elim (Bool-cases (ltb_ℤ t andor_min_temp || ltb_ℤ andor_max_temp t)) [
  | inl o ↦ rw (o, set_target) q
  | inr f ↦ rw (f, set_target) (cool_to_temperature-IsSafe true t (passed-in_limits t f) env h q)
]

set_temperature_to-IsSafe : (c : Option Conversion) → IsSafe (set_temperature_to c)
unfolding set_temperature_to
set_temperature_to-IsSafe none env h q = q
set_temperature_to-IsSafe (some c) env h q = elim (Bool-cases c.out_of_range) [
  | inl o ↦ rw (o, set_temperature_to) q
  | inr f ↦ rw (f, set_temperature_to) (set_target-IsSafe (to_int32 c.value) env h q)
]

set_temperature-IsSafe : (command : Bytes) → IsSafe (set_temperature command)
unfolding set_temperature
set_temperature-IsSafe command env h q = elim (Bool-cases (starts_with (codes "settemp") command)) [
  | inl t ↦ rw (t, set_temperature) (set_temperature_to-IsSafe (strtol (drop 7 command)) env h q)
  | inr f ↦ rw (f, set_temperature) q
]

take_image-IsSafe :
    (rounds : ℕ) (pf : Platform) (p : AndorParameters) (r : ℕ × FitsHeaders × Option (ℤ × ℤ))
    → IsSafe (take_image rounds pf p r)
unfolding take_image
take_image-IsSafe rounds pf p (status, hs, none) env h q = q
take_image-IsSafe rounds pf p (status, hs, some (x, y)) env h q = elim (Bool-cases (status == 0)) [
  | inl t ↦ rw (t, take_image) (get_acquisition-IsSafe pf p hs x y rounds env h q)
  | inr f ↦ rw (f, take_image) q
]

get_image-IsSafe :
    (rounds : ℕ) (pf : Platform) (command : Bytes) (p : AndorParameters)
    → IsSafe (get_image rounds pf command p)
unfolding get_image
get_image-IsSafe rounds pf command p env h q =
    let (resolved, p') = resolve_image_parameters pf command p in
    let r = setup_acquisition pf p' (no_headers 100) env h in
    elim (Bool-cases (resolved == 0)) [
      | inl t ↦
          rw (t, get_image)
            (take_image-IsSafe rounds pf p' r.0 env r.1
              (setup_acquisition-IsSafe pf p' (no_headers 100) env h q))
      | inr f ↦ rw (f, get_image) q
    ]

print_status-IsSafe : IsSafe print_status
unfolding print_status
print_status-IsSafe env h q = q

run_command-IsSafe :
    (rounds : ℕ) (pf : Platform) (c : Command) (command : Bytes) (p : AndorParameters)
    → IsSafe (run_command rounds pf c command p)
unfolding run_command
run_command-IsSafe rounds pf settemp command p env h q = set_temperature-IsSafe command env h q
run_command-IsSafe rounds pf shutdown command p env h q = q
run_command-IsSafe rounds pf Command.status command p env h q = print_status-IsSafe env h q
run_command-IsSafe rounds pf setparam command p env h q =
    set_param_value-IsSafe pf command p env h q
run_command-IsSafe rounds pf Command.image command p env h q =
    get_image-IsSafe rounds pf command p env h q
run_command-IsSafe rounds pf abort command p env h q = q
run_command-IsSafe rounds pf unknown command p env h q = q

resolve_command-IsSafe :
    (rounds : ℕ) (pf : Platform) (command : Bytes) (p : AndorParameters)
    → IsSafe (resolve_command rounds pf command p)
unfolding resolve_command
resolve_command-IsSafe rounds pf command p env h q =
    run_command-IsSafe rounds pf (command_of command) command p env h q

after_answer-IsSafe :
    (more : AndorParameters → M (Answer × AndorParameters)) (r : Answer × AndorParameters)
    → ((p : AndorParameters) → IsSafe (more p))
    → IsSafe (after_answer more r)
unfolding after_answer
after_answer-IsSafe more (none, p) rest env h q = q
after_answer-IsSafe more (some a, p) rest env h q = elim (Bool-cases (eqb_ℤ a (neg_ℕ 100))) [
  | inl t ↦ rw (t, after_answer) q
  | inr f ↦ rw (f, after_answer) (rest p env h q)
]

chat-IsSafe :
    (messages rounds : ℕ) (pf : Platform) (p : AndorParameters) → IsSafe (chat messages rounds pf p)
unfolding chat
chat-IsSafe zero rounds pf p env h q = q
chat-IsSafe (suc messages) rounds pf p env h q =
    let r = env h receive in
    let c = c_string r.text in
    let answered = resolve_command rounds pf c p env (receive ∷ h) in
    elim (Bool-cases (ltb_ℤ r.int1 (pos 1))) [
      | inl t ↦ rw (t, chat) q
      | inr f ↦
          rw (f, chat)
            (after_answer-IsSafe (chat messages rounds pf) answered.0
              (chat-IsSafe messages rounds pf) env answered.1
              (resolve_command-IsSafe rounds pf c p env (receive ∷ h) q))
    ]

after_chat-IsSafe :
    (more : AndorParameters → M Served) (r : Answer × AndorParameters)
    → ((p : AndorParameters) → IsSafe (more p))
    → IsSafe (after_chat more r)
unfolding after_chat
after_chat-IsSafe more (none, p) rest env h q = q
after_chat-IsSafe more (some a, p) rest env h q = elim (Bool-cases (leb_ℤ (pos 0) a)) [
  | inl t ↦ rw (t, after_chat) (rest p env h q)
  | inr f ↦ rw (f, after_chat) q
]

serve-IsSafe :
    (clients messages rounds : ℕ) (pf : Platform) (p : AndorParameters)
    → IsSafe (serve clients messages rounds pf p)
unfolding serve
serve-IsSafe zero messages rounds pf p env h q = q
serve-IsSafe (suc clients) messages rounds pf p env h q =
    let r = chat messages rounds pf p env (accept ∷ h) in
    elim (Bool-cases (ltb_ℤ (env h accept).int1 (pos 0))) [
      | inl t ↦ rw (t, serve) q
      | inr f ↦
          rw (f, serve)
            (after_chat-IsSafe (serve clients messages rounds pf) r.0
              (serve-IsSafe clients messages rounds pf) env r.1
              (chat-IsSafe messages rounds pf p env (accept ∷ h) q))
    ]

finish-IsSafe : IsSafe finish
unfolding finish
finish-IsSafe env h q = system_shutdown-IsSafe env h q

after_serving-IsSafe : (s : Served) → IsSafe (after_serving s)
unfolding after_serving
after_serving-IsSafe shutdown_received env h q = finish-IsSafe env h q
after_serving-IsSafe not_accepted env h q = q
after_serving-IsSafe running env h q = q

module _ (clients messages rounds : ℕ) (pf : Platform) where
  run_service-IsSafe : (p : AndorParameters) → IsSafe (run_service clients messages rounds pf p)
  unfolding run_service
  run_service-IsSafe p env h q =
      let r = serve clients messages rounds pf p env (listen ∷ h) in
      elim (Bool-cases (env h listen).flag) [
        | inl t ↦
            rw (t, run_service)
              (after_serving-IsSafe r.0 env r.1
                (serve-IsSafe clients messages rounds pf p env (listen ∷ h) q))
        | inr f ↦ rw (f, run_service) (finish-IsSafe env (listen ∷ h) q)
      ]

  after_cooling-IsSafe :
      (service : M Answer) → IsSafe service → (c : Option ℕ) → IsSafe (after_cooling service c)
  unfolding after_cooling
  after_cooling-IsSafe service safe none env h q = q
  after_cooling-IsSafe service safe (some c) env h q = elim (Bool-cases (c == 0)) [
    | inl t ↦ rw (t, after_cooling) (safe env h q)
    | inr f ↦ rw (f, after_cooling) q
  ]

  cool_and_run-IsSafe : (p : AndorParameters) → IsSafe (cool_and_run clients messages rounds pf p)
  unfolding cool_and_run
  cool_and_run-IsSafe p env h q =
      let h1 = call (initialize p.initialization_dir) ∷ h in
      let r = cool_to_temperature false initialize_to_temp env (sleep 2000 ∷ h1) in
      elim (Bool-cases (is_success (env h (call (initialize p.initialization_dir))).status)) [
        | inl t ↦
            rw (t, cool_and_run)
              (after_cooling-IsSafe (run_service clients messages rounds pf p)
                (run_service-IsSafe p) r.0 env r.1
                (cool_to_temperature-IsSafe false initialize_to_temp refl env (sleep 2000 ∷ h1) q))
        | inr f ↦ rw (f, cool_and_run) q
      ]

  -- Whatever clients send and whatever the driver answers, every temperature that the daemon tells the
  -- camera to reach is within -120 and 10 degrees.
  pub main-IsSafe : (blank : AndorParameters) → IsSafe (main clients messages rounds pf blank)
  unfolding main set_defaults
  main-IsSafe blank env h q = cool_and_run-IsSafe (set_defaults blank) env h q
