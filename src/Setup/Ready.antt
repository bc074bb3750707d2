-- ===== src/Setup/Ready.antt =====
-- What holds once setup_acquisition returns.
use andor2k.Base.{
  ◌||◌, not, ltb_ℤ, ◌&&◌, inl, inr, ◌==◌, Option, Bool-cases, true, [], ◌∷◌, false, ◌⊎◌, List, ℕ,
  ◌≡◌, ◌≢◌, refl, some, none, arith, ℤ, pos, ◌≤ℤ◌,
}
use andor2k.Params.{Platform, Float, AndorParameters}
use andor2k.Headers.{FitsHeader, FitsHeaders}
use andor2k.Headers.Update.{IsDistinct, update-IsDistinct}
use andor2k.Headers.Merge.{merge-IsDistinct}
use andor2k.Driver.{
  get_temperature_f, get_pre_amp_gain, is_success, set_trigger_mode, get_acquisition_timings, call,
  Environment, History,
}
use andor2k.ImageCommand.{is_image_mode}
use andor2k.Setup.{
  speed_headers, camera_headers, merge_aristarchos, set_modes, add_aristarchos_headers, add_headers,
  prepare_headers, sized_acquisition, setup_acquisition, image_size, update_all, outside,
  check_detector,
}

abbrev pub IsSide : ℤ → Type 0
IsSide n = (pos 1 ≤ℤ n) × (n ≤ℤ pos 2048)

side : (n : ℤ) → outside n ≡ false → IsSide n
side n e = ground arith

-- The status 0 with the size of the image, of which both sides are in [1, 2048], or another status and
-- no size.
abbrev pub IsSized : AndorParameters → ℕ × FitsHeaders × Option (ℤ × ℤ) → Type 0
IsSized p (c, hs, size) =
    ((c ≡ 0) × (size ≡ some (image_size p)) × IsSide (image_size p).0 × IsSide (image_size p).1)
    ⊎ ((c ≢ 0) × (size ≡ none))

module _ (pf : Platform) (p : AndorParameters) (env : Environment) where
  prepare_headers_size :
      (v u : Float) (size : ℤ × ℤ) (hs : FitsHeaders) (h : History)
      → let (c, hs', size') = (prepare_headers pf p v u size hs env h).0 in
        ((c ≡ 0) × (size' ≡ some size)) ⊎ ((c ≢ 0) × (size' ≡ none))
  unfolding prepare_headers
  prepare_headers_size v u size hs h = ground arith

  sized_acquisition_size :
      (v u : Float) (hs : FitsHeaders) (h : History)
      → IsSized p (sized_acquisition pf p v u hs env h).0
  unfolding sized_acquisition
  sized_acquisition_size v u hs h =
      let (c, h1) = check_detector env h in
      let (width, height) = image_size p in
      elim (Bool-cases (c == 0)) [
        | inr d ↦ rw (d, sized_acquisition) (inr (λ e. ground arith, refl))
        | inl d ↦ elim (Bool-cases (outside width)) [
          | inl o ↦ rw (d, o, sized_acquisition) (inr (λ e. ground arith, refl))
          | inr w ↦ elim (Bool-cases (outside height)) [
            | inl o ↦ rw (d, w, o, sized_acquisition) (inr (λ e. ground arith, refl))
            | inr t ↦
                rw (d, w, t, sized_acquisition)
                  (elim (prepare_headers_size v u (width, height) hs h1) [
                    | inl (z, s) ↦ inl (z, s, side width w, side height t)
                    | inr n ↦ inr n
                  ])
          ]
        ]
      ]

-- setup_acquisition returns 0 exactly where it sets the size of the image; the size is then that of
-- the region divided by the binning, rounded towards zero, and both sides are in [1, 2048].
pub setup_acquisition_size :
    (pf : Platform) (p : AndorParameters) (hs : FitsHeaders) (env : Environment) (h : History)
    → IsSized p (setup_acquisition pf p hs env h).0
unfolding setup_acquisition
setup_acquisition_size pf p hs env h =
    let ((c, v, u), h1) = set_modes p env h in
    elim (Bool-cases (is_image_mode p.read_out_mode)) [
      | inr m ↦ rw (m, setup_acquisition) (inr (λ e. ground arith, refl))
      | inl m ↦ elim (Bool-cases (c == 0)) [
        | inl z ↦ rw (m, z, setup_acquisition) (sized_acquisition_size pf p env v u hs h1)
        | inr z ↦ rw (m, z, setup_acquisition) (inr (λ e. ground arith, refl))
      ]
    ]

update_all-IsDistinct :
    (pf : Platform) (hdrs : List FitsHeader) (hs : FitsHeaders)
    → IsDistinct hs.mvec
    → IsDistinct (update_all pf hdrs hs).mvec
unfolding update_all
update_all-IsDistinct pf [] hs d = d
update_all-IsDistinct pf (hdr ∷ hdrs) hs d =
    update_all-IsDistinct pf hdrs _ (update-IsDistinct pf hdr hs d)

merge_aristarchos-IsDistinct :
    (pf : Platform) (ars : List FitsHeader) (hs : FitsHeaders)
    → IsDistinct hs.mvec
    → IsDistinct (merge_aristarchos pf ars hs).1.mvec
merge_aristarchos-IsDistinct pf [] hs d = d
merge_aristarchos-IsDistinct pf (ar ∷ ars) hs d = merge-IsDistinct pf (ar ∷ ars) true hs d

module _ (pf : Platform) (p : AndorParameters) (env : Environment) where
  add_aristarchos_headers-IsDistinct :
      (hs : FitsHeaders) (h : History)
      → IsDistinct hs.mvec
      → IsDistinct (add_aristarchos_headers pf p hs env h).0.1.mvec
  unfolding add_aristarchos_headers
  add_aristarchos_headers-IsDistinct hs h d = elim (Bool-cases (ltb_ℤ (pos 0) p.ar_hdr_tries)) [
    | inl t ↦ rw (t, add_aristarchos_headers) (merge_aristarchos-IsDistinct pf _ hs d)
    | inr f ↦ rw (f, add_aristarchos_headers) d
  ]

  add_headers-IsDistinct :
      (v u : Float) (size : ℤ × ℤ) (hs : FitsHeaders) (h : History)
      → IsDistinct hs.mvec
      → IsDistinct (add_headers pf p v u size hs env h).0.1.mvec
  unfolding add_headers
  add_headers-IsDistinct v u size hs h d =
      let h1 = call get_acquisition_timings ∷ h in
      let h2 = call (get_pre_amp_gain p.preampgain) ∷ h1 in
      let timings = env h (call get_acquisition_timings) in
      let gain = env h1 (call (get_pre_amp_gain p.preampgain)) in
      let added = camera_headers pf p v u size timings gain (env h2 (call get_temperature_f)) in
      let d1 = update_all-IsDistinct pf (speed_headers v u) hs d in
      elim (Bool-cases (is_success timings.status)) [
        | inr f ↦ rw (f, add_headers) d
        | inl t ↦ elim (Bool-cases (is_success gain.status)) [
          | inr f ↦ rw (t, f, add_headers) d1
          | inl g ↦
              rw (t, g, add_headers)
                (update_all-IsDistinct pf added (update_all pf (speed_headers v u) hs) d1)
        ]
      ]

  prepare_headers-IsDistinct :
      (v u : Float) (size : ℤ × ℤ) (hs : FitsHeaders) (h : History)
      → IsDistinct hs.mvec
      → IsDistinct (prepare_headers pf p v u size hs env h).0.1.mvec
  unfolding prepare_headers
  prepare_headers-IsDistinct v u size hs h d =
      let h1 = call (set_trigger_mode (pos 0)) ∷ h in
      let ((merged, hs1), h2) = add_aristarchos_headers pf p hs env h1 in
      let d1 = add_aristarchos_headers-IsDistinct hs h1 d in
      elim (Bool-cases (merged == 0)) [
        | inl t ↦ rw (t, prepare_headers) (add_headers-IsDistinct v u size hs1 h2 d1)
        | inr f ↦ rw (f, prepare_headers) d1
      ]

-- Where no two headers have the same key, setup_acquisition leaves it so, whatever the telescope and
-- the camera answer and however the preparation ends.
pub setup_acquisition-IsDistinct :
    (pf : Platform) (p : AndorParameters) (hs : FitsHeaders) (env : Environment) (h : History)
    → IsDistinct hs.mvec
    → IsDistinct (setup_acquisition pf p hs env h).0.1.mvec
unfolding setup_acquisition sized_acquisition
setup_acquisition-IsDistinct pf p hs env h d =
    let ((c, v, u), h1) = set_modes p env h in
    let (detector, h2) = check_detector env h1 in
    let (width, height) = image_size p in
    elim (Bool-cases (is_image_mode p.read_out_mode)) [
      | inr m ↦ rw (m, setup_acquisition) d
      | inl m ↦ elim (Bool-cases (c == 0)) [
        | inr z ↦ rw (m, z, setup_acquisition) d
        | inl z ↦ elim (Bool-cases (detector == 0 && not (outside width || outside height))) [
          | inr o ↦ rw (m, z, setup_acquisition, sized_acquisition, o) d
          | inl o ↦
              rw (m, z, setup_acquisition, sized_acquisition, o)
                (prepare_headers-IsDistinct pf p env v u (width, height) hs h2 d)
        ]
      ]
    ]
