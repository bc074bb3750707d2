-- ===== src/Setup/Written.antt =====
-- The headers that setup_acquisition of src/set_acquisition.cpp prepares, in the file that
-- apply_headers of src/cppfits.hpp writes.
use andor2k.Base.{
  ℕ, ◌+◌, ◌==◌, ◌≡◌, refl, Bool, true, false, not, ◌&&◌, ◌||◌, List, [], ◌∷◌, ◌++◌, inl, inr, arith,
  ℤ, pos, negsuc, ltb_ℤ, if◌then◌else◌, Bool-cases,
}
use andor2k.Base.Text.{Bytes, codes, str_eq}
use andor2k.Params.{Platform, Float, AndorParameters, float_ge_zero}
use andor2k.Headers.{FitsHeader, FitsHeaders, no_headers, create_fits_header, fval, update}
use andor2k.Driver.{
  Environment, History, Status, temp_stabilized, Reply, call, is_success, get_acquisition_timings,
  get_pre_amp_gain, get_temperature_f, set_trigger_mode,
}
use andor2k.ImageCommand.{is_image_mode}
use andor2k.Setup.{
  speed_headers, parameter_headers, temperature_headers, set_modes, add_aristarchos_headers,
  add_headers, prepare_headers, sized_acquisition, setup_acquisition, check_detector, image_size,
  outside, update_all,
}
use andor2k.FitsImage.{FitsCall, update_key, Cfitsio, apply_headers}
use andor2k.FitsImage.Applied.{HasStatuses, apply_headers_lem, all_coded, updates}

-- How often a key is written.
abbrev pub key_calls : Bytes → List FitsCall → ℕ
key_calls k [] = 0
key_calls k (update_key _ key _ _ ∷ h) = (if str_eq key k then 1 else 0) + key_calls k h
key_calls k (_ ∷ h) = key_calls k h

-- The first header with no code is that of the key TIMECORR or before it.
abbrev IsCut : List FitsHeader → Type 0
IsCut hdrs =
    (all_coded hdrs ≡ false)
    × (key_calls (codes "TIMECORR") (updates hdrs []) ≡ 0)
    × (key_calls (codes "CCDTEMP") (updates hdrs []) ≡ 0)
    × (key_calls (codes "FILTER") (updates hdrs []) ≡ 1)

unfoldable pub temperature_header : Status → Float → List FitsHeader
temperature_header temp_stabilized x =
    create_fits_header (codes "CCDTEMP") (fval x) (codes "CCD temp at start of exposure degC") ∷ []
temperature_header _ x = []

module _ (pf : Platform) (n : ℕ) (p : AndorParameters) where
  abbrev prepared : Float → Float → List FitsHeader → Float → ℤ → List FitsHeader → FitsHeaders
  prepared v u gain exposure correction temperature =
      update_all pf (gain ++ parameter_headers p exposure correction ++ temperature)
        (update_all pf (speed_headers v u) (no_headers n))

  temperature-IsCut :
      (v u : Float) (gain : Bool) (factor exposure x : Float) (correction : ℤ) (s : Status)
      → IsCut
          (prepared v u
            (if gain
              then create_fits_header (codes "GAIN") (fval factor) (codes "Pre-Amp Gain Factor")
                ∷ []
              else [])
            exposure
            correction
            (temperature_header s x)).mvec
  unfolding update_all update create_fits_header temperature_header str_eq
  temperature-IsCut v u true factor exposure x correction temp_stabilized = (refl, refl, refl, refl)
  temperature-IsCut v u true factor exposure x correction _ = (refl, refl, refl, refl)
  temperature-IsCut v u false factor exposure x correction temp_stabilized =
      (refl, refl, refl, refl)
  temperature-IsCut v u false factor exposure x correction _ = (refl, refl, refl, refl)

pub temperature_header_lem :
    (r : Reply) → temperature_headers r ≡ temperature_header r.status r.float1
temperature_header_lem r = by_status r.status
  where
    by_status :
        (s : Status)
        → elim s [
          | temp_stabilized ↦
              create_fits_header
                (codes "CCDTEMP")
                (fval r.float1)
                (codes "CCD temp at start of exposure degC")
              ∷ []
          | _ ↦ []
        ]
          ≡ temperature_header s r.float1
    by_status temp_stabilized = unfold temperature_header in refl
    by_status _ = unfold temperature_header in refl

abbrev IsCutOff : ℕ × FitsHeaders → Type 0
IsCutOff (c, hs) = c ≡ 0 → IsCut hs.mvec

module _ (pf : Platform) (n : ℕ) (p : AndorParameters) (env : Environment) where
  add_headers-IsCutOff :
      (v u : Float) (size : ℤ × ℤ) (h : History)
      → IsCutOff (add_headers pf p v u size (no_headers n) env h).0
  unfolding add_headers
  add_headers-IsCutOff v u (width, height) h =
      let h1 = call get_acquisition_timings ∷ h in
      let h2 = call (get_pre_amp_gain p.preampgain) ∷ h1 in
      let timings = env h (call get_acquisition_timings) in
      let gain = env h1 (call (get_pre_amp_gain p.preampgain)) in
      let temperature = env h2 (call get_temperature_f) in
      elim (Bool-cases (is_success timings.status)) [
        | inr f ↦ rw (f, add_headers) (λ e. absurd (ground arith))
        | inl t ↦ elim (Bool-cases (is_success gain.status)) [
          | inr f ↦ rw (t, f, add_headers) (λ e. absurd (ground arith))
          | inl g ↦
              rw (t, g, add_headers)
                (λ _. rw (temperature_header_lem temperature) (
                  temperature-IsCut pf n p v u (float_ge_zero gain.float1) gain.float1
                    timings.float1 temperature.float1
                    (pf.start_time_correction timings.float1 v u height width) temperature.status))
        ]
      ]

  setup_acquisition-IsCut :
      (h : History)
      → ltb_ℤ (pos 0) p.ar_hdr_tries ≡ false
      → (setup_acquisition pf p (no_headers n) env h).0.0 ≡ 0
      → IsCut (setup_acquisition pf p (no_headers n) env h).0.1.mvec
  unfolding setup_acquisition sized_acquisition prepare_headers add_aristarchos_headers
  setup_acquisition-IsCut h none_asked =
      let ((c, v, u), h1) = set_modes p env h in
      let (detector, h2) = check_detector env h1 in
      let (width, height) = image_size p in
      elim (Bool-cases (is_image_mode p.read_out_mode)) [
        | inr m ↦ rw (m, setup_acquisition) (λ e. absurd (ground arith))
        | inl m ↦ elim (Bool-cases (c == 0)) [
          | inr z ↦ rw (m, z, setup_acquisition) (λ e. absurd (ground arith))
          | inl z ↦ elim (Bool-cases (detector == 0 && not (outside width || outside height))) [
            | inr o ↦
                rw (m, z, setup_acquisition, sized_acquisition, o) (λ e. absurd (ground arith))
            | inl o ↦
                rw (m, z, setup_acquisition, sized_acquisition, o, prepare_headers, none_asked)
                  (add_headers-IsCutOff v u (width, height) (call (set_trigger_mode (pos 0)) ∷ h2))
          ]
        ]
      ]

-- Where the telescope is not asked for headers, and cfitsio's statuses are never negative, an
-- acquisition that is set up with a vector of no headers has apply_headers return -100, whatever
-- else goes well: the header FILTER is written once, but neither TIMECORR nor CCDTEMP is.
pub apply_headers-setup_acquisition :
    (pf : Platform) (n : ℕ) (p : AndorParameters) (env : Environment) (h : History)
    → ltb_ℤ (pos 0) p.ar_hdr_tries ≡ false
    → (setup_acquisition pf p (no_headers n) env h).0.0 ≡ 0
    → (cf : Cfitsio) → HasStatuses cf
    → (stop : Bool)
    → let hs = (setup_acquisition pf p (no_headers n) env h).0.1 in
      let (status, calls) = apply_headers cf hs stop [] in
      (status ≡ negsuc 99)
      × (key_calls (codes "FILTER") calls ≡ 1)
      × (key_calls (codes "TIMECORR") calls ≡ 0)
      × (key_calls (codes "CCDTEMP") calls ≡ 0)
apply_headers-setup_acquisition pf n p env h none_asked ready cf s stop =
    let hs = (setup_acquisition pf p (no_headers n) env h).0.1 in
    let (uncoded, correction, temperature, filter) =
      setup_acquisition-IsCut pf n p env h none_asked ready in
    rw (apply_headers_lem cf s hs stop [], uncoded) (refl, filter, correction, temperature)
