-- ===== src/Kinetic/Progress.antt =====
-- A kinetic series of src/get_acquisition.cpp comes to an end.
use andor2k.Base.{
  ◌+ℤ◌, ◌∷◌, [], ℕ, zero, suc, ◌+◌, ◌≤◌, ◌<◌, ◌≡◌, ◌≢◌, ◌∙◌, refl, sym, ap, true, false, none,
  Option, arith, ℤ, pos, negsuc, pos_part, ltb_ℤ, Bool-cases, inl, inr,
}
use andor2k.Params.{Platform, AndorParameters}
use andor2k.Headers.{FitsHeaders}
use andor2k.Driver.{
  wait_for_acquisition, read_sig_abort, read_sig_interrupt, join_progress, wait_for_acquisition,
  stop_progress, spawn_progress, Environment, History, M, call, success, start_acquisition,
  get_total_number_images_acquired,
}
use andor2k.Kinetic.{
  kinetic_wait, Round, stop, next, coarse_exposure_time, series_times, kinetic_round, kinetic_after,
  kinetic_end, kinetic_loop, loop_more, loop_end, get_kinetic_scan, kinetic_image,
}

-- The number of images that the driver last gave since the acquisition was started.
abbrev pub last_total : Environment → History → ℤ
last_total env [] = pos 0
last_total env (e ∷ h) = elim e [
  | call c ↦ elim c [
    | get_total_number_images_acquired ↦ (env h (call get_total_number_images_acquired)).int1
    | start_acquisition ↦ pos 0
    | _ ↦ last_total env h
  ]
  | _ ↦ last_total env h
]

-- When it is asked for the number of images, the driver gives a larger one than before.
abbrev pub IsProgressing : Environment → Type 0
IsProgressing env =
    (h : History)
    → let r = env h (call get_total_number_images_acquired) in
      (r.status ≡ success) × (ltb_ℤ (last_total env h) r.int1 ≡ true)

module _ (env : Environment) (progress : IsProgressing env) (hs : FitsHeaders) (x y : ℤ) where
  kinetic_image-grows :
      (acquired z : ℤ) (h : History)
      → (kinetic_image hs x y acquired env h).0 ≡ next z
      → (z ≡ last_total env (kinetic_image hs x y acquired env h).1)
        × (ltb_ℤ (last_total env h) z ≡ true)
  unfolding kinetic_image
  kinetic_image-grows acquired z h e = ground (arith, progress h)

  kinetic_round-grows :
      (times : ℤ × ℤ) (acquired z : ℤ) (h : History)
      → (kinetic_round times hs x y acquired env h).0 ≡ next z
      → (z ≡ last_total env (kinetic_round times hs x y acquired env h).1)
        × (ltb_ℤ (last_total env h) z ≡ true)
  unfolding kinetic_round kinetic_wait
  kinetic_round-grows times acquired z h e =
      let h1 = spawn_progress times.0 times.1 (acquired +ℤ pos 1) ∷ stop_progress false ∷ h in
      let h2 = call wait_for_acquisition ∷ read_sig_interrupt ∷ read_sig_abort ∷ h1 in
      ground (arith, progress (join_progress ∷ stop_progress true ∷ h2))

larger : (a : ℕ) (z : ℤ) → ltb_ℤ (pos a) z ≡ true → (b : ℕ) × (z ≡ pos b) × (a < b)
larger a (pos b) t = (b, refl, ground (arith, t))
larger a (negsuc b) t = absurd (ground (arith, t))

left : (a : ℕ) (n : ℤ) → ltb_ℤ (pos a) n ≡ true → a < pos_part n
left a (pos b) t = ground (arith, t)
left a (negsuc b) t = absurd (ground (arith, t))

module _ (env : Environment) (progress : IsProgressing env) (hs : FitsHeaders) (x y : ℤ) where
  -- What follows a round, given that the rounds after it return.
  after_returns :
      (more : ℤ → M (Option ℕ)) (a : ℕ) (r : Round × History)
      → ((z : ℤ) → r.0 ≡ next z → (z ≡ last_total env r.1) × (ltb_ℤ (pos a) z ≡ true))
      → ((b : ℕ) (h : History) → a < b → last_total env h ≡ pos b → (more (pos b) env h).0 ≢ none)
      → (kinetic_after more r.0 env r.1).0 ≢ none
  unfolding kinetic_after
  after_returns more a (stop c, h) grown rest = λ e. cc
  after_returns more a (next z, h) grown rest =
      let (same, more_images) = grown z refl in
      let (b, e, lt) = larger a z more_images in rw e (rest b h lt (sym same ∙ e))

  end_returns : (acquired : ℤ) (h : History) → (kinetic_end acquired env h).0 ≢ none
  unfolding kinetic_end
  end_returns acquired h = λ e. cc

  kinetic_loop-returns :
      (times : ℤ × ℤ) (n : ℤ) (rounds a : ℕ) (h : History)
      → last_total env h ≡ pos a
      → pos_part n ≤ a + rounds
      → (kinetic_loop times hs x y n (suc rounds) (pos a) env h).0 ≢ none
  kinetic_loop-returns times n zero a h total enough = elim (Bool-cases (ltb_ℤ (pos a) n)) [
    | inl t ↦ absurd (omega (arith, left a n t, enough))
    | inr f ↦ λ e.
        end_returns (pos a) h (sym (ap (λ r. r.0) (loop_end times hs x y n 0 (pos a) env h f)) ∙ e)
  ]
  kinetic_loop-returns times n (suc rounds) a h total enough = elim (Bool-cases (ltb_ℤ (pos a) n)) [
    | inl t ↦
        let r = kinetic_round times hs x y (pos a) env h in
        let more = kinetic_loop times hs x y n (suc rounds) in
        λ e.
          after_returns more a r
            (λ z e'.
              let g = kinetic_round-grows env progress hs x y times (pos a) z h e' in
              (g.0, ap (λ t. ltb_ℤ t z) (sym total) ∙ g.1))
            (λ b h' lt total'.
              kinetic_loop-returns times n rounds b h' total' (omega (arith, lt, enough)))
            (sym (ap (λ s. s.0) (loop_more times hs x y n (suc rounds) (pos a) env h t)) ∙ e)
    | inr f ↦ λ e.
        end_returns (pos a) h
          (sym (ap (λ r. r.0) (loop_end times hs x y n (suc rounds) (pos a) env h f)) ∙ e)
  ]

-- If the number of images that the driver gives grows each time it is asked, a kinetic series of n
-- images returns, after n + 1 tests of its loop at most.
pub get_kinetic_scan-returns :
    (env : Environment)
    → IsProgressing env
    → (pf : Platform) (p : AndorParameters) (hs : FitsHeaders) (x y : ℤ) (h : History)
    → (get_kinetic_scan (suc (pos_part p.num_images)) pf p hs x y env h).0 ≢ none
unfolding get_kinetic_scan
get_kinetic_scan-returns env progress pf p hs x y h =
    let r = coarse_exposure_time pf p env h in
    kinetic_loop-returns env progress hs x y (series_times pf p r.0) p.num_images
      (pos_part p.num_images) 0 (call start_acquisition ∷ r.1) refl (omega arith)
