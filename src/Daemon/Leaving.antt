-- ===== src/Daemon/Leaving.antt =====
-- When the daemon of bin/andor2kd.cpp leaves the chat with a client for its shutdown.
use andor2k.Base.{
  ◌||◌, drop, to_int32, ◌∷◌, ℕ, zero, suc, ◌≡◌, ◌∙◌, refl, sym, ap, Bool, true, false, some, none,
  Option, arith, ◌==◌, ℤ, pos, negsuc, ltb_ℤ, Bool-cases, inl, inr,
}
use andor2k.Base.Text.{Bytes, codes, starts_with, strtol, Conversion}
use andor2k.Params.{Platform, AndorParameters}
use andor2k.Headers.{FitsHeaders, no_headers}
use andor2k.Driver.{Environment, History, M, receive}
use andor2k.ImageCommand.{resolve_image_parameters}
use andor2k.Setup.{setup_acquisition}
use andor2k.Cooling.{cool_to_temperature}
use andor2k.Aristarchos.{c_string}
use andor2k.Daemon.{
  andor_max_temp, andor_min_temp, set_param_value, Answer, answer, set_target, set_temperature_to,
  set_temperature, take_image, get_image, print_status, settings_answer, Command, settemp, shutdown,
  setparam, abort, unknown, command_of, run_command, resolve_command, after_answer, chat,
}

-- An answer that is no negative number.
abbrev not_negative : Answer → Bool
not_negative none = true
not_negative (some (pos n)) = true
not_negative (some (negsuc n)) = false

not_negative-answer : (c : Option ℕ) → not_negative (answer c) ≡ true
not_negative-answer none = refl
not_negative-answer (some c) = refl

set_target_answer :
    (t : ℤ) (env : Environment) (h : History) → not_negative (set_target t env h).0 ≡ true
unfolding set_target
set_target_answer t env h = elim (Bool-cases (ltb_ℤ t andor_min_temp || ltb_ℤ andor_max_temp t)) [
  | inl o ↦ rw (o, set_target) refl
  | inr f ↦ rw (f, set_target) (not_negative-answer (cool_to_temperature true t env h).0)
]

set_temperature_to_answer :
    (c : Option Conversion) (env : Environment) (h : History)
    → not_negative (set_temperature_to c env h).0 ≡ true
unfolding set_temperature_to
set_temperature_to_answer none env h = refl
set_temperature_to_answer (some c) env h = elim (Bool-cases c.out_of_range) [
  | inl o ↦ rw (o, set_temperature_to) refl
  | inr f ↦ rw (f, set_temperature_to) (set_target_answer (to_int32 c.value) env h)
]

set_temperature_answer :
    (command : Bytes) (env : Environment) (h : History)
    → not_negative (set_temperature command env h).0 ≡ true
unfolding set_temperature
set_temperature_answer command env h = elim (Bool-cases (starts_with (codes "settemp") command)) [
  | inl t ↦ rw (t, set_temperature) (set_temperature_to_answer (strtol (drop 7 command)) env h)
  | inr f ↦ rw (f, set_temperature) refl
]

take_image_answer :
    (rounds : ℕ) (pf : Platform) (p : AndorParameters) (r : ℕ × FitsHeaders × Option (ℤ × ℤ))
    (env : Environment) (h : History)
    → not_negative (take_image rounds pf p r env h).0 ≡ true
unfolding take_image
take_image_answer rounds pf p (status, hs, none) env h = refl
take_image_answer rounds pf p (status, hs, some (x, y)) env h = ground arith

get_image_answer :
    (rounds : ℕ) (pf : Platform) (command : Bytes) (p : AndorParameters) (env : Environment)
    (h : History)
    → not_negative (get_image rounds pf command p env h).0.0 ≡ true
unfolding get_image
get_image_answer rounds pf command p env h =
    let (resolved, p') = resolve_image_parameters pf command p in
    let r = setup_acquisition pf p' (no_headers 100) env h in
    elim (Bool-cases (resolved == 0)) [
      | inl t ↦ rw (t, get_image) (take_image_answer rounds pf p' r.0 env r.1)
      | inr f ↦ rw (f, get_image) refl
    ]

settings_answer_lem :
    (p : AndorParameters) (r : Option (ℕ × AndorParameters))
    → not_negative (settings_answer p r).0 ≡ true
settings_answer_lem p none = refl
settings_answer_lem p (some r) = refl

abbrev is_shutdown : Command → Bool
is_shutdown shutdown = true
is_shutdown _ = false

-- Only the command "shutdown" has an answer that is negative.
run_command_answer :
    (rounds : ℕ) (pf : Platform) (c : Command) (command : Bytes) (p : AndorParameters)
    (env : Environment) (h : History)
    → is_shutdown c ≡ false
    → not_negative (run_command rounds pf c command p env h).0.0 ≡ true
unfolding run_command
run_command_answer rounds pf settemp command p env h n = set_temperature_answer command env h
run_command_answer rounds pf shutdown command p env h n = absurd (ground (arith, n))
run_command_answer rounds pf Command.status command p env h n = unfold print_status in refl
run_command_answer rounds pf setparam command p env h n =
    settings_answer_lem p (set_param_value pf command p env h).0
run_command_answer rounds pf Command.image command p env h n =
    get_image_answer rounds pf command p env h
run_command_answer rounds pf abort command p env h n = refl
run_command_answer rounds pf unknown command p env h n = refl

is_shutdown_lem : (c : Command) → is_shutdown c ≡ true → c ≡ shutdown
is_shutdown_lem shutdown e = refl
is_shutdown_lem settemp e = cc
is_shutdown_lem Command.status e = cc
is_shutdown_lem setparam e = cc
is_shutdown_lem Command.image e = cc
is_shutdown_lem abort e = cc
is_shutdown_lem unknown e = cc

-- A chat that ends with -1 goes on after an answer that is not negative.
after_answer_more :
    (more : AndorParameters → M (Answer × AndorParameters)) (r : Answer × AndorParameters)
    (env : Environment) (h : History)
    → not_negative r.0 ≡ true
    → (after_answer more r env h).0.0 ≡ some (negsuc 0)
    → after_answer more r env h ≡ more r.1 env h
unfolding after_answer
after_answer_more more (none, p) env h n e = absurd (cc)
after_answer_more more (some (pos a), p) env h n e = ground arith
after_answer_more more (some (negsuc a), p) env h n e = absurd (cc)

-- What a chat that ends with -1 has received last.
abbrev GotShutdown : Environment → History → Type 0
GotShutdown env h =
    (h' : History) × (h ≡ receive ∷ h') × (command_of (c_string (env h' receive).text) ≡ shutdown)

-- A message of the chat, and what follows it.
chat_step :
    (messages rounds : ℕ) (pf : Platform) (p : AndorParameters) (env : Environment) (h : History)
    → ltb_ℤ (env h receive).int1 (pos 1) ≡ false
    → let c = c_string (env h receive).text in
      let r = run_command rounds pf (command_of c) c p env (receive ∷ h) in
      chat (suc messages) rounds pf p env h ≡ after_answer (chat messages rounds pf) r.0 env r.1
unfolding chat resolve_command
chat_step messages rounds pf p env h f = rw (f, chat) refl

chat_step_shutdown :
    (messages rounds : ℕ) (pf : Platform) (p : AndorParameters) (env : Environment) (h : History)
    → ltb_ℤ (env h receive).int1 (pos 1) ≡ false
    → command_of (c_string (env h receive).text) ≡ shutdown
    → chat (suc messages) rounds pf p env h ≡ ((some (negsuc 0), p), receive ∷ h)
unfolding run_command after_answer
chat_step_shutdown messages rounds pf p env h f e =
    let c = c_string (env h receive).text in
    let then_chat : Command → (Answer × AndorParameters) × History = λ k.
      let r = run_command rounds pf k c p env (receive ∷ h) in
      after_answer (chat messages rounds pf) r.0 env r.1 in
    chat_step messages rounds pf p env h f ∙ ap then_chat e

chat_step_other :
    (messages rounds : ℕ) (pf : Platform) (p : AndorParameters) (env : Environment) (h : History)
    → ltb_ℤ (env h receive).int1 (pos 1) ≡ false
    → is_shutdown (command_of (c_string (env h receive).text)) ≡ false
    → (chat (suc messages) rounds pf p env h).0.0 ≡ some (negsuc 0)
    → (p' : AndorParameters) × (h' : History) × (chat (suc messages) rounds pf p env h
        ≡ chat messages rounds pf p' env h')
chat_step_other messages rounds pf p env h f n e =
    let c = c_string (env h receive).text in
    let r = run_command rounds pf (command_of c) c p env (receive ∷ h) in
    let step = chat_step messages rounds pf p env h f in
    (
      r.0.1,
      r.1,
      step
          ∙ after_answer_more (chat messages rounds pf) r.0 env r.1
              (run_command_answer rounds pf (command_of c) c p env (receive ∷ h) n)
              (sym (ap (λ s. s.0.0) step) ∙ e),
    )

chat_closed :
    (messages rounds : ℕ) (pf : Platform) (p : AndorParameters) (env : Environment) (h : History)
    → ltb_ℤ (env h receive).int1 (pos 1) ≡ true
    → (chat (suc messages) rounds pf p env h).0.0 ≡ some (pos 0)
unfolding chat
chat_closed messages rounds pf p env h t = rw (t, chat) refl

-- The chat with a client ends with the shutdown of the daemon only if its last message is the command
-- "shutdown".
pub chat-shutdown :
    (messages rounds : ℕ) (pf : Platform) (p : AndorParameters) (env : Environment) (h : History)
    → (chat messages rounds pf p env h).0.0 ≡ some (negsuc 0)
    → GotShutdown env (chat messages rounds pf p env h).1
chat-shutdown zero rounds pf p env h e = unfold chat in absurd (cc)
chat-shutdown (suc messages) rounds pf p env h e =
    elim (Bool-cases (ltb_ℤ (env h receive).int1 (pos 1))) [
      | inl t ↦ let z = sym (chat_closed messages rounds pf p env h t) ∙ e in absurd (cc)
      | inr f ↦ elim (Bool-cases (is_shutdown (command_of (c_string (env h receive).text)))) [
        | inl s ↦
            let c = is_shutdown_lem (command_of (c_string (env h receive).text)) s in
            (h, ap (λ r. r.1) (chat_step_shutdown messages rounds pf p env h f c), c)
        | inr o ↦
            let (p', h', eq) = chat_step_other messages rounds pf p env h f o e in
            let (h'', last, c) =
              chat-shutdown messages rounds pf p' env h' (sym (ap (λ r. r.0.0) eq) ∙ e) in
            (h'', ap (λ r. r.1) eq ∙ last, c)
      ]
    ]
