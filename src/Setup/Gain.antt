-- ===== src/Setup/Gain.antt =====
-- The pre-amplifier gain and the shift speeds of src/set_preampgain.cpp and src/vhsspeed.cpp.
use andor2k.Base.{
  inr, not, inl, Bool, false, ◌||◌, ◌||◌, true, ◌≡◌, refl, ◌∷◌, arith, ℤ, pos, ltb_ℤ, leb_ℤ,
  Bool-cases,
}
use andor2k.Params.{AndorParameters}
use andor2k.Driver.{
  Environment, History, call, is_success, get_number_pre_amp_gains, set_pre_amp_gain,
}
use andor2k.Setup.Modes.{set_preampgain}

-- An index of a gain, among so many.
abbrev pub in_range : ℤ → ℤ → Bool
in_range i gains = not (ltb_ℤ i (pos 0) || leb_ℤ gains i)

-- set_preampgain returns 0 only where the index asked for is that of a gain that the driver has, and
-- the driver has set it; for any other index it only asks the driver for the number of gains, and
-- returns 1.
pub set_preampgain_range :
    (p : AndorParameters) (env : Environment) (h : History)
    → let gains = env h (call get_number_pre_amp_gains) in
      let h1 = call get_number_pre_amp_gains ∷ h in
      let set = env h1 (call (set_pre_amp_gain p.preampgain)) in
      ((set_preampgain p env h).0 ≡ 0
        → (in_range p.preampgain gains.int1 ≡ true) × (is_success set.status ≡ true))
      × (in_range p.preampgain gains.int1 ≡ false → set_preampgain p env h ≡ (1, h1))
unfolding set_preampgain
set_preampgain_range p env h =
    let gains = env h (call get_number_pre_amp_gains) in
    elim (Bool-cases (ltb_ℤ p.preampgain (pos 0) || leb_ℤ gains.int1 p.preampgain)) [
      | inl o ↦ elim (Bool-cases (is_success gains.status)) [
        | inl s ↦ rw (o, s, set_preampgain) (λ e. ground arith, λ f. refl)
        | inr n ↦ rw (o, n, set_preampgain) (λ e. ground arith, λ f. refl)
      ]
      | inr i ↦ rw (i, set_preampgain) (λ e. ground arith, λ f. ground arith)
    ]
