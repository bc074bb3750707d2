-- ===== src/Setup/Plan.antt =====
-- What setup_read_out_mode and setup_acquisition_mode tell the driver, against a list of the calls
-- that each mode needs.
use andor2k.Base.{
  false, inr, inl, true, Bool-cases, List, [], ◌∷◌, Option, none, some, ◌≡◌, ◌↔◌, refl, arith, pos,
}
use andor2k.Params.{
  AndorParameters, ReadOutMode, full_vertical_binning, multi_track, random_track, single_track,
  image, AcquisitionMode, single_scan, accumulate, kinetic_series, fast_kinetics, run_till_abort,
  unnamed,
}
use andor2k.Driver.{
  not_applicable, ◌and_then◌, driver, is_success, M, Status, success, Call, Environment, History,
  call, set_read_mode, set_single_track, set_image, set_acquisition_mode, set_exposure_time,
  set_number_accumulations, set_accumulation_cycle_time, set_number_kinetics,
  set_kinetic_cycle_time,
}
use andor2k.Setup.Modes.{
  setup_read_out_mode, setup_acquisition_mode, read_out_calls, read_out_code, acquisition_calls,
  acquisition_code,
}

-- The calls of a read-out mode, in their order; `none` for a mode that is not supported.
abbrev pub read_out_plan : ReadOutMode → AndorParameters → Option (List Call)
read_out_plan full_vertical_binning p = some (set_read_mode (pos 0) ∷ [])
read_out_plan single_track p =
    some (set_read_mode (pos 3) ∷ set_single_track p.single_track_center p.single_track_height ∷ [])
read_out_plan image p = some (
    set_read_mode (pos 4)
    ∷ set_image p.image_hbin p.image_vbin p.image_hstart p.image_hend p.image_vstart p.image_vend
    ∷ [])
read_out_plan _ p = none

abbrev pub acquisition_plan : AcquisitionMode → AndorParameters → Option (List Call)
acquisition_plan single_scan p =
    some (set_acquisition_mode (pos 1) ∷ set_exposure_time p.exposure ∷ [])
acquisition_plan accumulate p = some (
    set_acquisition_mode (pos 2)
    ∷ set_exposure_time p.exposure
    ∷ set_number_accumulations p.num_accumulations
    ∷ set_accumulation_cycle_time p.accumulation_cycle_time
    ∷ [])
acquisition_plan kinetic_series p = some (
    set_acquisition_mode (pos 3)
    ∷ set_exposure_time p.exposure
    ∷ set_number_accumulations p.num_accumulations
    ∷ set_accumulation_cycle_time p.accumulation_cycle_time
    ∷ set_number_kinetics p.num_images
    ∷ set_kinetic_cycle_time p.kinetics_cycle_time
    ∷ [])
acquisition_plan run_till_abort p = some (
    set_acquisition_mode (pos 5)
    ∷ set_exposure_time p.exposure
    ∷ set_kinetic_cycle_time p.kinetics_cycle_time
    ∷ [])
acquisition_plan _ p = none

-- The calls are made one after the other from the history `h` on, each succeeds, and `h'` is the
-- history after the last.
abbrev pub Carried : Environment → List Call → History → History → Type 0
Carried env [] h h' = h' ≡ h
Carried env (c ∷ cs) h h' = ((env h (call c)).status ≡ success) × Carried env cs (call c ∷ h) h'

-- A plan there is, and it is carried out.
abbrev pub Fulfilled : Environment → Option (List Call) → History → History → Type 0
Fulfilled env none h h' = ⊥
Fulfilled env (some cs) h h' = Carried env cs h h'

is_success_sound : (s : Status) → is_success s ≡ true → s ≡ success
is_success_sound s e = ground arith

is_success_complete : (s : Status) → s ≡ success → is_success s ≡ true
is_success_complete s e = rw e refl

read_out_code_iff : (s : Status) → (read_out_code s ≡ 0) ↔ (s ≡ success)
unfolding read_out_code
read_out_code_iff s = ground arith

acquisition_code_iff : (s : Status) → (acquisition_code s ≡ 0) ↔ (s ≡ success)
unfolding acquisition_code
acquisition_code_iff s = ground arith

both : {A B C : Type 0} → A ↔ B → B ↔ C → A ↔ C
both f g = (λ a. g.0 (f.0 a), λ c. f.1 (g.1 c))

-- A call and those after it, which are made only if it succeeds.
run : Call → List Call → M Status
run c [] = driver c
run c (d ∷ cs) = driver c and_then run d cs

fails : (s : Status) → is_success s ≡ false → s ≡ success → ⊥
fails s f e = ground arith

run_iff :
    (c : Call) (cs : List Call) (env : Environment) (h : History)
    → ((run c cs env h).0 ≡ success) ↔ Carried env (c ∷ cs) h (run c cs env h).1
unfolding run
run_iff c [] env h = (λ e. (e, refl), λ k. k.0)
run_iff c (d ∷ cs) env h = elim (Bool-cases (is_success (env h (call c)).status)) [
  | inl t ↦
      rw (t, run)
        (
          λ e. (is_success_sound _ t, (run_iff d cs env (call c ∷ h)).0 e),
          λ k. (run_iff d cs env (call c ∷ h)).1 k.1,
        )
  | inr f ↦ rw (f, run) (λ e. absurd (fails _ f e), λ k. k.0)
]

unsupported : (not_applicable ≡ success) ↔ ⊥
unsupported = (fails not_applicable refl, absurd)

read_out_calls_iff :
    (m : ReadOutMode) (p : AndorParameters) (env : Environment) (h : History)
    → ((read_out_calls m p env h).0 ≡ success)
      ↔ Fulfilled env (read_out_plan m p) h (read_out_calls m p env h).1
unfolding read_out_calls run
read_out_calls_iff full_vertical_binning p env h = run_iff _ [] env h
read_out_calls_iff single_track p env h = run_iff _ (_ ∷ []) env h
read_out_calls_iff image p env h = run_iff _ (_ ∷ []) env h
read_out_calls_iff multi_track p env h = unsupported
read_out_calls_iff random_track p env h = unsupported

acquisition_calls_iff :
    (m : AcquisitionMode) (p : AndorParameters) (env : Environment) (h : History)
    → ((acquisition_calls m p env h).0 ≡ success)
      ↔ Fulfilled env (acquisition_plan m p) h (acquisition_calls m p env h).1
unfolding acquisition_calls run
acquisition_calls_iff single_scan p env h = run_iff _ (_ ∷ []) env h
acquisition_calls_iff accumulate p env h = run_iff _ (_ ∷ _ ∷ _ ∷ []) env h
acquisition_calls_iff kinetic_series p env h = run_iff _ (_ ∷ _ ∷ _ ∷ _ ∷ _ ∷ []) env h
acquisition_calls_iff run_till_abort p env h = run_iff _ (_ ∷ _ ∷ []) env h
acquisition_calls_iff fast_kinetics p env h = unsupported
acquisition_calls_iff (unnamed n) p env h = unsupported

-- setup_read_out_mode returns 0 exactly where the read-out mode is supported, every call of its plan
-- was made in that order and succeeded, and nothing else was done.
pub setup_read_out_mode_iff :
    (p : AndorParameters) (env : Environment) (h : History)
    → ((setup_read_out_mode p env h).0 ≡ 0)
      ↔ Fulfilled env (read_out_plan p.read_out_mode p) h (setup_read_out_mode p env h).1
unfolding setup_read_out_mode
setup_read_out_mode_iff p env h =
    both (read_out_code_iff _) (read_out_calls_iff p.read_out_mode p env h)

-- setup_acquisition_mode returns 0 exactly where the acquisition mode is supported, every call of its
-- plan was made in that order and succeeded, and nothing else was done.
pub setup_acquisition_mode_iff :
    (p : AndorParameters) (env : Environment) (h : History)
    → ((setup_acquisition_mode p env h).0 ≡ 0)
      ↔ Fulfilled env (acquisition_plan p.acquisition_mode p) h (setup_acquisition_mode p env h).1
unfolding setup_acquisition_mode
setup_acquisition_mode_iff p env h =
    both (acquisition_code_iff _) (acquisition_calls_iff p.acquisition_mode p env h)
