-- ===== src/Setup/Told.antt =====
-- What the camera was last told, once setup_acquisition returns 0.
use andor2k.Base.{inr, inl, Bool-cases, ◌≡◌, refl, [], ◌∷◌, arith, ℤ, pos, if◌then◌else◌}
use andor2k.Params.{
  Platform, Float, AndorParameters, image, AcquisitionMode, acquisition_mode2int, shutter_mode2int,
}
use andor2k.Headers.{FitsHeaders}
use andor2k.Driver.{
  Environment, Event, History, call, set_read_mode, set_image, set_acquisition_mode,
  set_exposure_time, set_shutter, set_trigger_mode, get_detector,
}
use andor2k.ImageCommand.Validity.{image_mode}
use andor2k.Setup.Modes.{
  setup_read_out_mode, setup_acquisition_mode, read_out_calls, read_out_code, acquisition_calls,
  acquisition_code, set_fastest_recomended_vh_speeds, set_preampgain,
}
use andor2k.Setup.{
  is_dark, initialize_shutter, set_modes, check_detector, add_aristarchos_headers, add_headers,
  prepare_headers, sized_acquisition, setup_acquisition, image_size,
}

-- The arguments of the last call of each kind; `region` has those of SetImage.
pub record Camera : Type 0 where
  pub read_mode : ℤ
  pub region : ℤ × ℤ × ℤ × ℤ × ℤ × ℤ
  pub mode : ℤ
  pub exposure : Float
  pub shutter : ℤ
  pub trigger : ℤ

abbrev pub tell : Event → Camera → Camera
tell (call (set_read_mode m)) c = record c { read_mode = m }
tell (call (set_image hb vb hs he vs ve)) c = record c { region = (hb, vb, hs, he, vs, ve) }
tell (call (set_acquisition_mode m)) c = record c { mode = m }
tell (call (set_exposure_time x)) c = record c { exposure = x }
tell (call (set_shutter _ m _ _)) c = record c { shutter = m }
tell (call (set_trigger_mode m)) c = record c { trigger = m }
tell _ c = c

-- Before anything is told, every member is 0.
abbrev pub told : History → Camera
told [] = record {
  read_mode = pos 0;
  region = (pos 0, pos 0, pos 0, pos 0, pos 0, pos 0);
  mode = pos 0;
  exposure = 0;
  shutter = pos 0;
  trigger = pos 0;
}
told (e ∷ h) = tell e (told h)

abbrev region_of : AndorParameters → ℤ × ℤ × ℤ × ℤ × ℤ × ℤ
region_of p =
    (p.image_hbin, p.image_vbin, p.image_hstart, p.image_hend, p.image_vstart, p.image_vend)

-- What the parameters ask of the camera: the read-out mode 4 with the region, the mode with the
-- exposure, the shutter closed (2) for a dark frame and else as asked, and the trigger 0.
abbrev pub as_asked : AndorParameters → Camera
as_asked p = record {
  read_mode = pos 4;
  region = region_of p;
  mode = acquisition_mode2int p.acquisition_mode;
  exposure = p.exposure;
  shutter = if is_dark p.image_type then pos 2 else shutter_mode2int p.shutter_mode;
  trigger = pos 0;
}

told-read_out_calls :
    (p : AndorParameters) (env : Environment) (h : History)
    → read_out_code (read_out_calls image p env h).0 ≡ 0
    → told (read_out_calls image p env h).1
      ≡ record (told h) { read_mode = pos 4; region = region_of p }
unfolding read_out_calls read_out_code
told-read_out_calls p env h e = ground arith

told-acquisition_calls :
    (m : AcquisitionMode) (p : AndorParameters) (env : Environment) (h : History)
    → acquisition_code (acquisition_calls m p env h).0 ≡ 0
    → told (acquisition_calls m p env h).1
      ≡ record (told h) { mode = acquisition_mode2int m; exposure = p.exposure }
unfolding acquisition_calls acquisition_code
told-acquisition_calls m p env h e = ground arith

told-set_fastest_recomended_vh_speeds :
    (i : ℤ) (env : Environment) (h : History)
    → told (set_fastest_recomended_vh_speeds i env h).1 ≡ told h
unfolding set_fastest_recomended_vh_speeds
told-set_fastest_recomended_vh_speeds i env h = ground arith

told-set_preampgain :
    (p : AndorParameters) (env : Environment) (h : History)
    → told (set_preampgain p env h).1 ≡ told h
unfolding set_preampgain
told-set_preampgain p env h = ground arith

told-initialize_shutter :
    (p : AndorParameters) (env : Environment) (h : History)
    → told (initialize_shutter p env h).1 ≡ record (told h) {
      shutter = if is_dark p.image_type then pos 2 else shutter_mode2int p.shutter_mode;
    }
unfolding initialize_shutter
told-initialize_shutter p env h = elim (Bool-cases (is_dark p.image_type)) [
  | inl t ↦ rw (t, initialize_shutter) refl
  | inr f ↦ rw (f, initialize_shutter) refl
]

module _ (pf : Platform) (p : AndorParameters) (env : Environment) where
  told-add_aristarchos_headers :
      (hs : FitsHeaders) (h : History) → told (add_aristarchos_headers pf p hs env h).1 ≡ told h
  unfolding add_aristarchos_headers
  told-add_aristarchos_headers hs h = ground arith

  told-add_headers :
      (v u : Float) (size : ℤ × ℤ) (hs : FitsHeaders) (h : History)
      → told (add_headers pf p v u size hs env h).1 ≡ told h
  unfolding add_headers
  told-add_headers v u size hs h = ground arith

  told-prepare_headers :
      (v u : Float) (size : ℤ × ℤ) (hs : FitsHeaders) (h : History)
      → told (prepare_headers pf p v u size hs env h).1 ≡ record (told h) { trigger = pos 0 }
  unfolding prepare_headers
  told-prepare_headers v u size hs h =
      let h1 = call (set_trigger_mode (pos 0)) ∷ h in
      let ((merged, hs1), h2) = add_aristarchos_headers pf p hs env h1 in
      ground (arith, told-add_aristarchos_headers hs h1, told-add_headers v u size hs1 h2)

  told-sized_acquisition :
      (v u : Float) (hs : FitsHeaders) (h : History)
      → (sized_acquisition pf p v u hs env h).0.0 ≡ 0
      → told (sized_acquisition pf p v u hs env h).1 ≡ record (told h) { trigger = pos 0 }
  unfolding sized_acquisition check_detector
  told-sized_acquisition v u hs h e =
      ground (arith, told-prepare_headers v u (image_size p) hs (call get_detector ∷ h))

  told-set_modes :
      (h : History)
      → p.read_out_mode ≡ image
      → (set_modes p env h).0.0 ≡ 0
      → told (set_modes p env h).1 ≡ record (as_asked p) { trigger = (told h).trigger }
  unfolding set_modes setup_read_out_mode setup_acquisition_mode
  told-set_modes h m e =
      let r1 = read_out_calls image p env h in
      let r2 = acquisition_calls p.acquisition_mode p env r1.1 in
      let r3 = set_fastest_recomended_vh_speeds p.hsspeed env r2.1 in
      let r4 = set_preampgain p env r3.1 in
      ground (
        arith,
        told-read_out_calls p env h,
        told-acquisition_calls p.acquisition_mode p env r1.1,
        told-set_fastest_recomended_vh_speeds p.hsspeed env r2.1,
        told-set_preampgain p env r3.1,
        told-initialize_shutter p env r4.1,
      )

-- Where setup_acquisition returns 0, the last that the camera was told of the read-out mode, the
-- region with its binning, the acquisition mode, the exposure, the shutter and the trigger is what
-- the parameters ask: the image mode, their values, and the shutter closed for a dark or bias frame.
pub told-setup_acquisition :
    (pf : Platform) (p : AndorParameters) (hs : FitsHeaders) (env : Environment) (h : History)
    → (setup_acquisition pf p hs env h).0.0 ≡ 0
    → told (setup_acquisition pf p hs env h).1 ≡ as_asked p
unfolding setup_acquisition
told-setup_acquisition pf p hs env h e =
    let ((c, v, u), h1) = set_modes p env h in
    ground (
      arith,
      image_mode p.read_out_mode,
      told-set_modes pf p env h,
      told-sized_acquisition pf p env v u hs h1,
    )
