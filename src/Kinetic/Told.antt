-- ===== src/Kinetic/Told.antt =====
-- What the client of a kinetic series of src/get_acquisition.cpp is told.
use andor2k.Base.{
  ap, sym, Option, not, Bool, ◌∷◌, ℕ, zero, suc, ◌+◌, ◌≤◌, ◌≡◌, ◌≢◌, ◌∙◌, refl, true, false, some,
  arith, ◌==◌, ℤ, pos, ltb_ℤ, Bool-cases, inl, inr,
}
use andor2k.Params.{Platform, AndorParameters}
use andor2k.Headers.{FitsHeaders}
use andor2k.Driver.{Environment, History, M, call, start_acquisition}
use andor2k.Driver.Messages.{dones}
use andor2k.Kinetic.{
  loop_end, loop_more, Round, stop, next, coarse_exposure_time, series_times, kinetic_round,
  kinetic_after, kinetic_end, kinetic_loop, get_kinetic_scan, kinetic_image,
}

-- How many messages that begin with "done" have been sent, `before` and `after`, where the status is c.
pub record IsTold (before after c : ℕ) : Type 0 where
  pub at_least : before ≤ after
  pub at_most : after ≤ before + 1
  pub success : c ≡ 0 → after ≡ before + 1
  pub other : c ≢ 0 → c ≢ 10 → after ≡ before

-- A round that goes on, and one that ends with a status other than 10, tells nothing.
abbrev silent : Round → Bool
silent (next _) = true
silent (stop c) = not (c == 10)

abbrev is_zero : Round → Bool
is_zero (next _) = false
is_zero (stop c) = c == 0

module _ (times : ℤ × ℤ) (hs : FitsHeaders) (x y acquired : ℤ) (env : Environment) where
  dones-kinetic_image :
      (h : History)
      → silent (kinetic_image hs x y acquired env h).0 ≡ true
      → dones (kinetic_image hs x y acquired env h).1 ≡ dones h
  unfolding kinetic_image
  dones-kinetic_image h q = ground arith

  dones_bound-kinetic_image :
      (h : History)
      → (dones h ≤ dones (kinetic_image hs x y acquired env h).1)
        × (dones (kinetic_image hs x y acquired env h).1 ≤ dones h + 1)
  unfolding kinetic_image
  dones_bound-kinetic_image h = ground arith

  silent-kinetic_round :
      (h : History)
      → silent (kinetic_round times hs x y acquired env h).0 ≡ true
      → dones (kinetic_round times hs x y acquired env h).1 ≡ dones h
  unfolding kinetic_round
  silent-kinetic_round h q = ground arith

  dones_bound-kinetic_round :
      (h : History)
      → (dones h ≤ dones (kinetic_round times hs x y acquired env h).1)
        × (dones (kinetic_round times hs x y acquired env h).1 ≤ dones h + 1)
  unfolding kinetic_round
  dones_bound-kinetic_round h = ground arith

  is_zero-kinetic_round :
      (h : History) → is_zero (kinetic_round times hs x y acquired env h).0 ≡ false
  unfolding kinetic_round
  is_zero-kinetic_round h = ground arith

-- What follows a round.
kinetic_after-IsTold :
    (more : ℤ → M (Option ℕ)) (r : Round × History) (env : Environment) (before c : ℕ)
    → ((acquired : ℤ) (h : History)
        → (more acquired env h).0 ≡ some c
        → IsTold (dones h) (dones (more acquired env h).1) c)
    → (silent r.0 ≡ true → dones r.1 ≡ before)
    → (before ≤ dones r.1) × (dones r.1 ≤ before + 1)
    → is_zero r.0 ≡ false
    → (kinetic_after more r.0 env r.1).0 ≡ some c
    → IsTold before (dones (kinetic_after more r.0 env r.1).1) c
unfolding kinetic_after
kinetic_after-IsTold more (stop c', h) env before c rest same bound z e = record {
  at_least = bound.0;
  at_most = bound.1;
  success = λ e0. ground (arith, z, e, e0);
  other = λ n0 n10. ground (arith, same, e, n10);
}
kinetic_after-IsTold more (next acquired, h) env before c rest same bound z e =
    rw (sym (same refl)) (rest acquired h e)

kinetic_end-IsTold :
    (acquired : ℤ) (env : Environment) (h : History) (c : ℕ)
    → (kinetic_end acquired env h).0 ≡ some c
    → IsTold (dones h) (dones (kinetic_end acquired env h).1) c
unfolding kinetic_end
kinetic_end-IsTold acquired env h c e = record {
  at_least = omega arith;
  at_most = omega arith;
  success = λ e0. omega arith;
  other = λ n0 n10. ground (arith, e, n0);
}

kinetic_loop-IsTold :
    (times : ℤ × ℤ) (hs : FitsHeaders) (x y n : ℤ) (rounds c : ℕ) (acquired : ℤ) (env : Environment)
    (h : History)
    → (kinetic_loop times hs x y n rounds acquired env h).0 ≡ some c
    → IsTold (dones h) (dones (kinetic_loop times hs x y n rounds acquired env h).1) c
unfolding kinetic_loop
kinetic_loop-IsTold times hs x y n zero c acquired env h e = cc
kinetic_loop-IsTold times hs x y n (suc rounds) c acquired env h e =
    elim (Bool-cases (ltb_ℤ acquired n)) [
      | inl t ↦
          let more = kinetic_loop times hs x y n rounds in
          let r = kinetic_round times hs x y acquired env h in
          let e' : (kinetic_after more r.0 env r.1).0 ≡ some c =
            sym (ap (λ s. s.0) (loop_more times hs x y n rounds acquired env h t)) ∙ e in
          rw (t, kinetic_loop)
            (kinetic_after-IsTold more r env (dones h) c
              (λ acquired' h'. kinetic_loop-IsTold times hs x y n rounds c acquired' env h')
              (silent-kinetic_round times hs x y acquired env h)
              (dones_bound-kinetic_round times hs x y acquired env h)
              (is_zero-kinetic_round times hs x y acquired env h) e')
      | inr f ↦
          let e' : (kinetic_end acquired env h).0 ≡ some c =
            sym (ap (λ s. s.0) (loop_end times hs x y n rounds acquired env h f)) ∙ e in
          rw (f, kinetic_loop) (kinetic_end-IsTold acquired env h c e')
    ]

dones-coarse_exposure_time :
    (pf : Platform) (p : AndorParameters) (env : Environment) (h : History)
    → dones (coarse_exposure_time pf p env h).1 ≡ dones h
unfolding coarse_exposure_time
dones-coarse_exposure_time pf p env h = ground arith

-- A kinetic series that returns the status c sends at most one message that begins with "done". It
-- sends one if c is 0, and none if c is neither 0 nor 10.
pub get_kinetic_scan-IsTold :
    (rounds : ℕ) (pf : Platform) (p : AndorParameters) (hs : FitsHeaders) (x y : ℤ) (c : ℕ)
    (env : Environment) (h : History)
    → (get_kinetic_scan rounds pf p hs x y env h).0 ≡ some c
    → IsTold (dones h) (dones (get_kinetic_scan rounds pf p hs x y env h).1) c
unfolding get_kinetic_scan
get_kinetic_scan-IsTold rounds pf p hs x y c env h e =
    let r = coarse_exposure_time pf p env h in
    let before : dones (call start_acquisition ∷ r.1) ≡ dones h =
      omega (arith, dones-coarse_exposure_time pf p env h) in
    rw (sym before) (
      kinetic_loop-IsTold (series_times pf p r.0) hs x y p.num_images rounds c (pos 0) env
        (call start_acquisition ∷ r.1) e)
