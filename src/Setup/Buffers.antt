-- ===== src/Setup/Buffers.antt =====
-- The headers that setup_acquisition of src/set_acquisition.cpp prepares, in the arrays of
-- src/fits_header.hpp that they are copied to.
use andor2k.Base.{
  ◌<◌, ◌==◌, ◌||◌, ◌&&◌, not, List, [], ◌∷◌, ◌++◌, true, arith, inl, inr, Bool-cases, length, ℤ,
  pos, ltb_ℤ,
}
use andor2k.Base.Text.{Bytes}
use andor2k.Params.{Platform, Float, AndorParameters, float_ge_zero}
use andor2k.Headers.{FitsHeader, FitsHeaders, HeaderValue, create_fits_header}
use andor2k.Headers.Stored.{
  IsStored, AllStored, IsStoredValue, create_fits_header-IsStored, update-AllStored,
  merge-AllStored, append-AllStored,
}
use andor2k.Driver.{
  Environment, History, Status, temp_stabilized, Reply, call, fetch_headers, is_success,
  get_acquisition_timings, get_pre_amp_gain, get_temperature_f, set_trigger_mode,
}
use andor2k.ImageCommand.{is_image_mode, resolve_image_parameters}
use andor2k.ImageCommand.Buffers.{
  IsBounded, resolve_image_parameters-IsBounded, resolve_image_parameters-SameSetup,
}
use andor2k.Setup.Written.{temperature_header, temperature_header_lem}
use andor2k.Setup.{
  speed_headers, gain_headers, parameter_headers, temperature_headers, camera_headers,
  merge_aristarchos, set_modes, add_aristarchos_headers, add_headers, prepare_headers,
  sized_acquisition, setup_acquisition, check_detector, image_size, outside, update_all,
}

speed_headers-AllStored : (v u : Float) → AllStored (speed_headers v u)
speed_headers-AllStored v u = (
  create_fits_header-IsStored _ _ _ (omega arith) (omega arith) tt,
  (create_fits_header-IsStored _ _ _ (omega arith) (omega arith) tt, tt),
)

gain_headers-AllStored : (factor : Float) → AllStored (gain_headers factor)
gain_headers-AllStored factor = elim (Bool-cases (float_ge_zero factor)) [
  | inl t ↦ rw t (create_fits_header-IsStored _ _ _ (omega arith) (omega arith) tt, tt)
  | inr f ↦ rw f tt
]

temperature_header-AllStored : (s : Status) (x : Float) → AllStored (temperature_header s x)
unfolding temperature_header
temperature_header-AllStored temp_stabilized x =
    (create_fits_header-IsStored _ _ _ (omega arith) (omega arith) tt, tt)
temperature_header-AllStored _ x = tt

temperature_headers-AllStored : (r : Reply) → AllStored (temperature_headers r)
temperature_headers-AllStored r =
    rw (temperature_header_lem r) (temperature_header-AllStored r.status r.float1)

parameter_headers-AllStored :
    (p : AndorParameters) (exposure : Float) (correction : ℤ)
    → IsBounded p
    → length p.observer_name < 32
    → AllStored (parameter_headers p exposure correction)
parameter_headers-AllStored p exposure correction b o =
    let stored : (key comment : Bytes) (val : HeaderValue)
        → length key < 16
        → length comment < 64
        → IsStoredValue val
        → IsStored (create_fits_header key val comment) =
      create_fits_header-IsStored in
    (
      stored _ _ _ (omega arith) (omega arith) o,
      (
        stored _ _ _ (omega arith) (omega arith) tt,
        (
          stored _ _ _ (omega arith) (omega arith) tt,
          (
            stored _ _ _ (omega arith) (omega arith) tt,
            (
              stored _ _ _ (omega arith) (omega arith) tt,
              (
                stored _ _ _ (omega arith) (omega arith) (omega arith),
                (
                  stored _ _ _ (omega arith) (omega arith) b.object_name,
                  (
                    stored _ _ _ (omega arith) (omega arith) (ground (arith, b.filter_name)),
                    (stored _ _ _ (omega arith) (omega arith) tt, tt),
                  ),
                ),
              ),
            ),
          ),
        ),
      ),
    )

update_all-AllStored :
    (pf : Platform) (hdrs : List FitsHeader) (hs : FitsHeaders)
    → AllStored hdrs
    → AllStored hs.mvec
    → AllStored (update_all pf hdrs hs).mvec
unfolding update_all
update_all-AllStored pf [] hs s a = a
update_all-AllStored pf (hdr ∷ hdrs) hs (s, ss) a =
    update_all-AllStored pf hdrs _ ss (update-AllStored pf hdr hs s a)

merge_aristarchos-AllStored :
    (pf : Platform) (ars : List FitsHeader) (hs : FitsHeaders)
    → AllStored ars
    → AllStored hs.mvec
    → AllStored (merge_aristarchos pf ars hs).1.mvec
merge_aristarchos-AllStored pf [] hs s a = a
merge_aristarchos-AllStored pf (ar ∷ ars) hs s a = merge-AllStored pf (ar ∷ ars) true hs s a

-- The headers of the telescope, where they are given, fit their arrays. The parser of the telescope's
-- message does not see to it (Aristarchos.Overrun).
abbrev pub HasStoredHeaders : Environment → Type 0
HasStoredHeaders env = (h : History) (tries : ℤ) → AllStored (env h (fetch_headers tries)).headers

module _ (pf : Platform) (p : AndorParameters) (env : Environment) (b : IsBounded p)
    (o : length p.observer_name < 32) (stored : HasStoredHeaders env) where
  add_aristarchos_headers-AllStored :
      (hs : FitsHeaders) (h : History)
      → AllStored hs.mvec
      → AllStored (add_aristarchos_headers pf p hs env h).0.1.mvec
  unfolding add_aristarchos_headers
  add_aristarchos_headers-AllStored hs h a = elim (Bool-cases (ltb_ℤ (pos 0) p.ar_hdr_tries)) [
    | inl t ↦
        rw (t, add_aristarchos_headers)
          (merge_aristarchos-AllStored pf _ hs (stored h p.ar_hdr_tries) a)
    | inr f ↦ rw (f, add_aristarchos_headers) a
  ]

  camera_headers-AllStored :
      (v u : Float) (size : ℤ × ℤ) (timings gain temperature : Reply)
      → AllStored (camera_headers pf p v u size timings gain temperature)
  camera_headers-AllStored v u (width, height) timings gain temperature =
      let exposure = timings.float1 in
      let correction = pf.start_time_correction exposure v u height width in
      let params = parameter_headers p exposure correction in
      append-AllStored (gain_headers gain.float1 ++ params) (temperature_headers temperature)
        (append-AllStored (gain_headers gain.float1) params (gain_headers-AllStored gain.float1)
          (parameter_headers-AllStored p exposure correction b o))
        (temperature_headers-AllStored temperature)

  add_headers-AllStored :
      (v u : Float) (size : ℤ × ℤ) (hs : FitsHeaders) (h : History)
      → AllStored hs.mvec
      → AllStored (add_headers pf p v u size hs env h).0.1.mvec
  unfolding add_headers
  add_headers-AllStored v u size hs h a =
      let h1 = call get_acquisition_timings ∷ h in
      let h2 = call (get_pre_amp_gain p.preampgain) ∷ h1 in
      let timings = env h (call get_acquisition_timings) in
      let gain = env h1 (call (get_pre_amp_gain p.preampgain)) in
      let added =
        camera_headers-AllStored v u size timings gain (env h2 (call get_temperature_f)) in
      let a1 = update_all-AllStored pf (speed_headers v u) hs (speed_headers-AllStored v u) a in
      elim (Bool-cases (is_success timings.status)) [
        | inr f ↦ rw (f, add_headers) a
        | inl t ↦ elim (Bool-cases (is_success gain.status)) [
          | inr f ↦ rw (t, f, add_headers) a1
          | inl g ↦ rw (t, g, add_headers) (update_all-AllStored pf _ _ added a1)
        ]
      ]

  prepare_headers-AllStored :
      (v u : Float) (size : ℤ × ℤ) (hs : FitsHeaders) (h : History)
      → AllStored hs.mvec
      → AllStored (prepare_headers pf p v u size hs env h).0.1.mvec
  unfolding prepare_headers
  prepare_headers-AllStored v u size hs h a =
      let h1 = call (set_trigger_mode (pos 0)) ∷ h in
      let ((merged, hs1), h2) = add_aristarchos_headers pf p hs env h1 in
      let a1 = add_aristarchos_headers-AllStored hs h1 a in
      elim (Bool-cases (merged == 0)) [
        | inl t ↦ rw (t, prepare_headers) (add_headers-AllStored v u size hs1 h2 a1)
        | inr f ↦ rw (f, prepare_headers) a1
      ]

  setup_acquisition-AllStored :
      (hs : FitsHeaders) (h : History)
      → AllStored hs.mvec
      → AllStored (setup_acquisition pf p hs env h).0.1.mvec
  unfolding setup_acquisition sized_acquisition
  setup_acquisition-AllStored hs h a =
      let ((c, v, u), h1) = set_modes p env h in
      let (detector, h2) = check_detector env h1 in
      let (width, height) = image_size p in
      elim (Bool-cases (is_image_mode p.read_out_mode)) [
        | inr m ↦ rw (m, setup_acquisition) a
        | inl m ↦ elim (Bool-cases (c == 0)) [
          | inr z ↦ rw (m, z, setup_acquisition) a
          | inl z ↦ elim (Bool-cases (detector == 0 && not (outside width || outside height))) [
            | inr o ↦ rw (m, z, setup_acquisition, sized_acquisition, o) a
            | inl o ↦
                rw (m, z, setup_acquisition, sized_acquisition, o)
                  (prepare_headers-AllStored v u (width, height) hs h2 a)
          ]
        ]
      ]

-- Where the strings of the parameters, of the headers that are there and of the telescope's headers fit
-- their arrays, an image command, whatever it is, and the preparation that follows it leave no header
-- with a key, a value or a comment that is too long for its array of 16, 32 or 64 characters, whatever
-- else the camera answers, and however the preparation ends.
pub command-AllStored :
    (pf : Platform) (command : Bytes) (p : AndorParameters) (hs : FitsHeaders) (env : Environment)
    (h : History)
    → IsBounded p
    → length p.observer_name < 32
    → HasStoredHeaders env
    → AllStored hs.mvec
    → let p' = (resolve_image_parameters pf command p).1 in
      AllStored (setup_acquisition pf p' hs env h).0.1.mvec
command-AllStored pf command p hs env h b o stored a =
    let p' = (resolve_image_parameters pf command p).1 in
    let same = resolve_image_parameters-SameSetup pf command p in
    setup_acquisition-AllStored pf p' env (resolve_image_parameters-IsBounded pf command p b)
      (rw same.observer_name o) stored hs h a
