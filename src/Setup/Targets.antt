-- ===== src/Setup/Targets.antt =====
-- Preparing an acquisition, in src/set_acquisition.cpp, tells the camera no temperature.
use andor2k.Base.{arith, ℤ, pos, ◌∷◌, Bool-cases, inl, inr}
use andor2k.Params.{Platform, AndorParameters, Float, AcquisitionMode, ReadOutMode}
use andor2k.Headers.{FitsHeaders}
use andor2k.Driver.{call, set_trigger_mode, get_detector}
use andor2k.Driver.Targets.{IsSafe}
use andor2k.Setup.Modes.{
  setup_read_out_mode, setup_acquisition_mode, read_out_calls, acquisition_calls,
  set_fastest_recomended_vh_speeds, set_preampgain,
}
use andor2k.Setup.{
  initialize_shutter, is_dark, set_modes, check_detector, add_aristarchos_headers, add_headers,
  prepare_headers, sized_acquisition, setup_acquisition, image_size,
}

read_out_calls-IsSafe : (m : ReadOutMode) (p : AndorParameters) → IsSafe (read_out_calls m p)
unfolding read_out_calls
read_out_calls-IsSafe m p env h q = ground arith

acquisition_calls-IsSafe :
    (m : AcquisitionMode) (p : AndorParameters) → IsSafe (acquisition_calls m p)
unfolding acquisition_calls
acquisition_calls-IsSafe m p env h q = ground arith

set_speeds-IsSafe : (i : ℤ) → IsSafe (set_fastest_recomended_vh_speeds i)
unfolding set_fastest_recomended_vh_speeds
set_speeds-IsSafe i env h q = ground arith

set_preampgain-IsSafe : (p : AndorParameters) → IsSafe (set_preampgain p)
unfolding set_preampgain
set_preampgain-IsSafe p env h q = ground arith

initialize_shutter-IsSafe : (p : AndorParameters) → IsSafe (initialize_shutter p)
unfolding initialize_shutter
initialize_shutter-IsSafe p env h q = elim (Bool-cases (is_dark p.image_type)) [
  | inl t ↦ rw (t, initialize_shutter) q
  | inr f ↦ rw (f, initialize_shutter) q
]

set_modes-IsSafe : (p : AndorParameters) → IsSafe (set_modes p)
unfolding set_modes setup_read_out_mode setup_acquisition_mode
set_modes-IsSafe p env h q =
    let r1 = read_out_calls p.read_out_mode p env h in
    let r2 = acquisition_calls p.acquisition_mode p env r1.1 in
    let r3 = set_fastest_recomended_vh_speeds p.hsspeed env r2.1 in
    let r3' = set_fastest_recomended_vh_speeds p.hsspeed env r1.1 in
    let r4 = set_preampgain p env r3.1 in
    ground (
      arith,
      read_out_calls-IsSafe p.read_out_mode p env h q,
      acquisition_calls-IsSafe p.acquisition_mode p env r1.1,
      set_speeds-IsSafe p.hsspeed env r2.1,
      set_preampgain-IsSafe p env r3.1,
      initialize_shutter-IsSafe p env r4.1,
    )

module _ (pf : Platform) (p : AndorParameters) where
  add_aristarchos_headers-IsSafe : (hs : FitsHeaders) → IsSafe (add_aristarchos_headers pf p hs)
  unfolding add_aristarchos_headers
  add_aristarchos_headers-IsSafe hs env h q = ground arith

  add_headers-IsSafe :
      (v u : Float) (size : ℤ × ℤ) (hs : FitsHeaders) → IsSafe (add_headers pf p v u size hs)
  unfolding add_headers
  add_headers-IsSafe v u size hs env h q = ground arith

  prepare_headers-IsSafe :
      (v u : Float) (size : ℤ × ℤ) (hs : FitsHeaders) → IsSafe (prepare_headers pf p v u size hs)
  unfolding prepare_headers
  prepare_headers-IsSafe v u size hs env h q =
      let h1 = call (set_trigger_mode (pos 0)) ∷ h in
      let ((merged, hs1), h2) = add_aristarchos_headers pf p hs env h1 in
      ground
        (arith, add_aristarchos_headers-IsSafe hs env h1, add_headers-IsSafe v u size hs1 env h2)

  sized_acquisition-IsSafe :
      (v u : Float) (hs : FitsHeaders) → IsSafe (sized_acquisition pf p v u hs)
  unfolding sized_acquisition check_detector
  sized_acquisition-IsSafe v u hs env h q =
      ground (arith, prepare_headers-IsSafe v u (image_size p) hs env (call get_detector ∷ h))

  pub setup_acquisition-IsSafe : (hs : FitsHeaders) → IsSafe (setup_acquisition pf p hs)
  unfolding setup_acquisition
  setup_acquisition-IsSafe hs env h q =
      let ((modes, v, u), h1) = set_modes p env h in
      ground (arith, set_modes-IsSafe p env h q, sized_acquisition-IsSafe v u hs env h1)
