-- ===== src/Cooling/Target.antt =====
-- What holds of the camera once cool_to_temperature returns, and what the client is told.
use andor2k.Base.{
  ◌∙◌, inr, inl, Bool-cases, ◌≢◌, ℕ, zero, suc, ◌+◌, ◌≡◌, refl, Bool, true, false, Option, none,
  some, [], ◌∷◌, arith, ℤ, if◌then◌else◌,
}
use andor2k.Driver.{
  Environment, History, Event, Status, not_applicable, temp_stabilized, call, sleep, read_clock,
  get_temperature, set_temperature, cooler_on, cooler_off, cooling_begun, cooling_progress,
}
use andor2k.Driver.Messages.{dones}
use andor2k.Cooling.{
  is_stabilized, send, cooling_too_long, Message, report, cooling_rounds, max_cooling_rounds,
  cool_to_temperature,
}

-- What the driver said of the temperature when last asked.
abbrev pub reading : Environment → History → Status
reading env [] = not_applicable
reading env (e ∷ h) = elim e [
  | call c ↦ elim c [ get_temperature ↦ (env h (call get_temperature)).status | _ ↦ reading env h ]
  | _ ↦ reading env h
]

-- The target that was last set, and whether the cooler was last told to run.
pub record Cooler : Type 0 where
  pub target : Option ℤ
  pub running : Bool

abbrev pub adjust : Event → Cooler → Cooler
adjust (call (set_temperature t)) c = record c { target = some t }
adjust (call cooler_on) c = record c { running = true }
adjust (call cooler_off) c = record c { running = false }
adjust _ c = c

abbrev pub cooler : History → Cooler
cooler [] = record { target = none; running = false }
cooler (e ∷ h) = adjust e (cooler h)

cooler-report :
    (socket : Bool) (m : Message) (env : Environment) (h : History)
    → cooler (report socket m env h).1 ≡ cooler h
cooler-report true m env h = refl
cooler-report false m env h = refl

-- One round, given that those after it leave the cooler as it is.
cooler-round :
    (socket : Bool) (rounds : ℕ) (s : Status) (temp : ℤ) (env : Environment) (h : History)
    → ((s' : Status) (temp' : ℤ) (h' : History)
        → cooler (cooling_rounds socket rounds s' temp' env h').1 ≡ cooler h')
    → cooler (cooling_rounds socket (suc rounds) s temp env h).1 ≡ cooler h
unfolding cooling_rounds
cooler-round socket rounds s temp env h rest =
    let h1 = (report socket (cooling_progress s temp) env h).1 in
    let h2 = sleep 5000 ∷ read_clock ∷ h1 in
    let r = env h2 (call get_temperature) in
    elim (Bool-cases (is_stabilized s)) [
      | inl t ↦ rw (t, cooling_rounds) (cooler-report socket _ env h)
      | inr f ↦ elim (Bool-cases (env h1 read_clock).flag) [
        | inl t ↦
            rw (f, t, cooling_rounds)
              (cooler-report socket (cooling_too_long temp) env (read_clock ∷ h1)
                ∙ cooler-report socket (cooling_progress s temp) env h)
        | inr g ↦
            rw (f, g, cooling_rounds)
              (rest r.status r.int1 (call get_temperature ∷ h2)
                ∙ cooler-report socket (cooling_progress s temp) env h)
      ]
    ]

cooler-cooling_rounds :
    (socket : Bool) (rounds : ℕ) (s : Status) (temp : ℤ) (env : Environment) (h : History)
    → cooler (cooling_rounds socket rounds s temp env h).1 ≡ cooler h
unfolding cooling_rounds
cooler-cooling_rounds socket zero s temp env h = refl
cooler-cooling_rounds socket (suc rounds) s temp env h =
    cooler-round socket rounds s temp env h
      (λ s' temp' h'. cooler-cooling_rounds socket rounds s' temp' env h')

reading-cooling_rounds :
    (socket : Bool) (rounds : ℕ) (s : Status) (temp : ℤ) (env : Environment) (h : History)
    → reading env h ≡ s
    → (cooling_rounds socket rounds s temp env h).0 ≡ some 0
    → reading env (cooling_rounds socket rounds s temp env h).1 ≡ temp_stabilized
unfolding cooling_rounds
reading-cooling_rounds socket zero s temp env h q e = ground arith
reading-cooling_rounds socket (suc rounds) s temp env h q e =
    let h1 = (report socket (cooling_progress s temp) env h).1 in
    let h2 = sleep 5000 ∷ read_clock ∷ h1 in
    let r = env h2 (call get_temperature) in
    ground (
      arith,
      reading-cooling_rounds socket rounds r.status r.int1 env (call get_temperature ∷ h2) refl,
    )

-- Where cool_to_temperature returns 0, the target was last set to the temperature asked for, the
-- cooler was last told to run, and the camera, when last asked, had stabilized at its target.
pub cool_to_temperature-reached :
    (socket : Bool) (temp_c : ℤ) (env : Environment) (h : History)
    → let (c, h') = cool_to_temperature socket temp_c env h in
      c ≡ some 0
      → (cooler h' ≡ record { target = some temp_c; running = true })
        × (reading env h' ≡ temp_stabilized)
unfolding cool_to_temperature
cool_to_temperature-reached socket temp_c env h e =
    let first = env h (call get_temperature) in
    let h1 = (report socket (cooling_begun first.int1) env (call get_temperature ∷ h)).1 in
    let h2 = call cooler_on ∷ call (set_temperature temp_c) ∷ h1 in
    let r = env h2 (call get_temperature) in
    let h3 = call get_temperature ∷ h2 in
    ground (
      arith,
      cooler-cooling_rounds socket max_cooling_rounds r.status r.int1 env h3,
      reading-cooling_rounds socket max_cooling_rounds r.status r.int1 env h3 refl,
    )

-- One message that begins with "done" is sent where there is a socket, and none where there is not.
abbrev pub expected : Bool → ℕ
expected socket = if socket then 1 else 0

dones-cooling_rounds :
    (socket : Bool) (rounds : ℕ) (s : Status) (temp : ℤ) (env : Environment) (h : History)
    → (cooling_rounds socket rounds s temp env h).0 ≢ none
    → dones (cooling_rounds socket rounds s temp env h).1 ≡ dones h + expected socket
unfolding cooling_rounds
dones-cooling_rounds socket zero s temp env h n = absurd (n refl)
dones-cooling_rounds true (suc rounds) s temp env h n =
    let h2 = sleep 5000 ∷ read_clock ∷ send (cooling_progress s temp) ∷ h in
    let r = env h2 (call get_temperature) in
    ground (arith, dones-cooling_rounds true rounds r.status r.int1 env (call get_temperature ∷ h2))
dones-cooling_rounds false (suc rounds) s temp env h n =
    let h2 = sleep 5000 ∷ read_clock ∷ h in
    let r = env h2 (call get_temperature) in
    ground
      (arith, dones-cooling_rounds false rounds r.status r.int1 env (call get_temperature ∷ h2))

-- Where cool_to_temperature returns, it has sent the client exactly one message that begins with
-- "done" if there is a socket, and none if there is not.
pub dones-cool_to_temperature :
    (socket : Bool) (temp_c : ℤ) (env : Environment) (h : History)
    → (cool_to_temperature socket temp_c env h).0 ≢ none
    → dones (cool_to_temperature socket temp_c env h).1 ≡ dones h + expected socket
unfolding cool_to_temperature
dones-cool_to_temperature socket temp_c env h n =
    let first = env h (call get_temperature) in
    let h1 = (report socket (cooling_begun first.int1) env (call get_temperature ∷ h)).1 in
    let h2 = call cooler_on ∷ call (set_temperature temp_c) ∷ h1 in
    let r = env h2 (call get_temperature) in
    ground (
      arith,
      dones-cooling_rounds socket max_cooling_rounds r.status r.int1 env
          (call get_temperature ∷ h2),
    )
