-- ===== src/Setup/Correction.antt =====
-- find_start_time_cor of src/get_acquisition.cpp: the correction of the start time is read back from the
-- headers that add_headers of Setup (src/set_acquisition.cpp) prepares.
use andor2k.Base.{
  ℕ, ◌≡◌, refl, [], ◌∷◌, ◌++◌, Option, none, some, Bool, true, false, if◌then◌else◌, ℤ, pos, arith,
  Bool-cases, inl, inr,
}
use andor2k.Base.Text.{codes, str_eq}
use andor2k.Params.{Platform, Float, AndorParameters, float_ge_zero}
use andor2k.Headers.{
  FitsHeaders, HeaderValue, lval, fval, find_header, no_headers, create_fits_header, update,
}
use andor2k.Driver.{
  Environment, History, Status, temp_stabilized, call, is_success, get_acquisition_timings,
  get_pre_amp_gain, get_temperature_f,
}
use andor2k.Setup.{speed_headers, parameter_headers, add_headers, update_all}
use andor2k.Setup.Written.{temperature_header, temperature_header_lem}

-- `lval` of the union; `none` where another member was stored.
abbrev lval_of : HeaderValue → Option ℤ
lval_of (lval n) = some n
lval_of _ = none

-- The value returned, and the correction.
find_start_time_cor : FitsHeaders → ℕ × Option ℤ
find_start_time_cor fheaders = elim (find_header (codes "TIMECORR") fheaders.mvec) [
  | some it ↦ (0, lval_of it.value)
  | none ↦ (1, some (pos 0))
]

module _ (pf : Platform) (n : ℕ) (p : AndorParameters) where
  found_correction :
      (v u : Float) (gain : Bool) (factor exposure x : Float) (correction : ℤ) (s : Status)
      → find_start_time_cor (
          update_all pf
            ((if gain
                then create_fits_header (codes "GAIN") (fval factor) (codes "Pre-Amp Gain Factor")
                  ∷ []
                else [])
              ++ parameter_headers p exposure correction
              ++ temperature_header s x)
            (update_all pf (speed_headers v u) (no_headers n)))
        ≡ (0, some correction)
  unfolding find_start_time_cor find_header update_all update create_fits_header temperature_header
      str_eq
  found_correction v u true factor exposure x correction temp_stabilized = refl
  found_correction v u true factor exposure x correction _ = refl
  found_correction v u false factor exposure x correction temp_stabilized = refl
  found_correction v u false factor exposure x correction _ = refl

  -- Where the headers of an acquisition are added to none, find_start_time_cor returns 0 with the
  -- correction for the exposure time that the camera answered, the speeds and the size of the image.
  find_start_time_cor-add_headers :
      (env : Environment) (v u : Float) (width height : ℤ) (h : History)
      → (add_headers pf p v u (width, height) (no_headers n) env h).0.0 ≡ 0
      → let exposure = (env h (call get_acquisition_timings)).float1 in
        find_start_time_cor (add_headers pf p v u (width, height) (no_headers n) env h).0.1
        ≡ (0, some (pf.start_time_correction exposure v u height width))
  unfolding add_headers
  find_start_time_cor-add_headers env v u width height h =
      let h1 = call get_acquisition_timings ∷ h in
      let h2 = call (get_pre_amp_gain p.preampgain) ∷ h1 in
      let timings = env h (call get_acquisition_timings) in
      let gain = env h1 (call (get_pre_amp_gain p.preampgain)) in
      let temperature = env h2 (call get_temperature_f) in
      elim (Bool-cases (is_success timings.status)) [
        | inr f ↦ rw (f, add_headers) (λ e. absurd (ground arith))
        | inl t ↦ elim (Bool-cases (is_success gain.status)) [
          | inr f ↦ rw (t, f, add_headers) (λ e. absurd (ground arith))
          | inl g ↦
              rw (t, g, add_headers)
                (λ _. rw (temperature_header_lem temperature) (
                  found_correction v u (float_ge_zero gain.float1) gain.float1 timings.float1
                    temperature.float1 (pf.start_time_correction timings.float1 v u height width)
                    temperature.status))
        ]
      ]
