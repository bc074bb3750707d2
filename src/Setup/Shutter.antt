-- ===== src/Setup/Shutter.antt =====
-- The shutter during a dark or a bias frame, through the whole of setup_acquisition.
use andor2k.Base.{ℕ, ◌+◌, ◌≡◌, true, [], ◌∷◌, arith, ℤ, pos, eqb_ℤ, if◌then◌else◌}
use andor2k.Params.{Platform, Float, AndorParameters, ReadOutMode, AcquisitionMode}
use andor2k.Headers.{FitsHeaders}
use andor2k.Driver.{get_detector, set_trigger_mode, Event, Environment, History, call, set_shutter}
use andor2k.Setup.Modes.{
  setup_read_out_mode, setup_acquisition_mode, read_out_calls, acquisition_calls,
  set_fastest_recomended_vh_speeds, set_preampgain,
}
use andor2k.Setup.{
  image_size, is_dark, initialize_shutter, set_modes, check_detector, add_aristarchos_headers,
  add_headers, prepare_headers, sized_acquisition, setup_acquisition,
}

-- A call that lets the shutter open: any but that which closes it for good.
abbrev pub opens : Event → ℕ
opens (call (set_shutter t mode c o)) = if eqb_ℤ mode (pos 2) then 0 else 1
opens _ = 0

abbrev pub openings : History → ℕ
openings [] = 0
openings (e ∷ h) = opens e + openings h

openings-read_out_calls :
    (m : ReadOutMode) (p : AndorParameters) (env : Environment) (h : History)
    → openings (read_out_calls m p env h).1 ≡ openings h
unfolding read_out_calls
openings-read_out_calls m p env h = ground arith

openings-acquisition_calls :
    (m : AcquisitionMode) (p : AndorParameters) (env : Environment) (h : History)
    → openings (acquisition_calls m p env h).1 ≡ openings h
unfolding acquisition_calls
openings-acquisition_calls m p env h = ground arith

openings-set_fastest_recomended_vh_speeds :
    (i : ℤ) (env : Environment) (h : History)
    → openings (set_fastest_recomended_vh_speeds i env h).1 ≡ openings h
unfolding set_fastest_recomended_vh_speeds
openings-set_fastest_recomended_vh_speeds i env h = ground arith

openings-set_preampgain :
    (p : AndorParameters) (env : Environment) (h : History)
    → openings (set_preampgain p env h).1 ≡ openings h
unfolding set_preampgain
openings-set_preampgain p env h = ground arith

openings-initialize_shutter :
    (p : AndorParameters) (env : Environment) (h : History)
    → is_dark p.image_type ≡ true
    → openings (initialize_shutter p env h).1 ≡ openings h
unfolding initialize_shutter
openings-initialize_shutter p env h d = rw (d, initialize_shutter) (omega arith)

module _ (pf : Platform) (p : AndorParameters) (env : Environment) where
  openings-add_aristarchos_headers :
      (hs : FitsHeaders) (h : History)
      → openings (add_aristarchos_headers pf p hs env h).1 ≡ openings h
  unfolding add_aristarchos_headers
  openings-add_aristarchos_headers hs h = ground arith

  openings-add_headers :
      (v u : Float) (size : ℤ × ℤ) (hs : FitsHeaders) (h : History)
      → openings (add_headers pf p v u size hs env h).1 ≡ openings h
  unfolding add_headers
  openings-add_headers v u size hs h = ground arith

  openings-prepare_headers :
      (v u : Float) (size : ℤ × ℤ) (hs : FitsHeaders) (h : History)
      → openings (prepare_headers pf p v u size hs env h).1 ≡ openings h
  unfolding prepare_headers
  openings-prepare_headers v u size hs h =
      let h1 = call (set_trigger_mode (pos 0)) ∷ h in
      let r = add_aristarchos_headers pf p hs env h1 in
      ground
        (arith, openings-add_aristarchos_headers hs h1, openings-add_headers v u size r.0.1 r.1)

  openings-sized_acquisition :
      (v u : Float) (hs : FitsHeaders) (h : History)
      → openings (sized_acquisition pf p v u hs env h).1 ≡ openings h
  unfolding sized_acquisition check_detector
  openings-sized_acquisition v u hs h =
      ground (arith, openings-prepare_headers v u (image_size p) hs (call get_detector ∷ h))

openings-set_modes :
    (p : AndorParameters) (env : Environment) (h : History)
    → is_dark p.image_type ≡ true
    → openings (set_modes p env h).1 ≡ openings h
unfolding set_modes setup_read_out_mode setup_acquisition_mode
openings-set_modes p env h d =
    let r1 = read_out_calls p.read_out_mode p env h in
    let r2 = acquisition_calls p.acquisition_mode p env r1.1 in
    let r3 = set_fastest_recomended_vh_speeds p.hsspeed env r2.1 in
    let r4 = set_preampgain p env r3.1 in
    ground (
      arith,
      openings-read_out_calls p.read_out_mode p env h,
      openings-acquisition_calls p.acquisition_mode p env r1.1,
      openings-set_fastest_recomended_vh_speeds p.hsspeed env r2.1,
      openings-set_fastest_recomended_vh_speeds p.hsspeed env r1.1,
      openings-set_preampgain p env r3.1,
      openings-initialize_shutter p env r4.1 d,
    )

-- For an image whose type begins with "dark" or "bias", setup_acquisition makes no call that lets the
-- shutter open, whatever the shutter mode of the parameters and however the preparation ends.
pub openings-setup_acquisition :
    (pf : Platform) (p : AndorParameters) (hs : FitsHeaders) (env : Environment) (h : History)
    → is_dark p.image_type ≡ true
    → openings (setup_acquisition pf p hs env h).1 ≡ openings h
unfolding setup_acquisition
openings-setup_acquisition pf p hs env h d =
    let ((c, v, u), h1) = set_modes p env h in
    ground (arith, openings-set_modes p env h d, openings-sized_acquisition pf p env v u hs h1)
