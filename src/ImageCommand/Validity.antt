-- ===== src/ImageCommand/Validity.antt =====
-- What holds of the parameters when src/resolve_image_parameters.cpp accepts a command.
use mathlib.Core.Path.{subst}
use andor2k.Base.{
  drop, zero, suc, ap, if-eq_zero, Bool, ◌||◌, if-eq_zero, inr, inl, true, Bool-cases, eqb_ℤ, ℕ,
  ◌≡◌, ◌≢◌, refl, ℤ, pos, ◌≤ℤ◌, arith, false,
}
use andor2k.Base.Text.{tokens, codes, starts_with, Bytes}
use andor2k.Params.{Platform, AndorParameters, ReadOutMode, float_lt_zero, fits_dir}
use andor2k.ImageCommand.{
  then_final, is_image_mode, bad_end, bad_start, resolve_options, resolve_image_parameters,
  final_tests, final_status,
}

-- Binning is not zero, the region starts in [1, 2048) and ends in [2, 2048], the exposure is not
-- negative, the read-out mode is that of images, and images go to the usual folder.
pub record IsValid (q : AndorParameters) : Type 0 where
  pub hbin : q.image_hbin ≢ pos 0
  pub vbin : q.image_vbin ≢ pos 0
  pub hstart : (pos 1 ≤ℤ q.image_hstart) × (q.image_hstart ≤ℤ pos 2047)
  pub vstart : (pos 1 ≤ℤ q.image_vstart) × (q.image_vstart ≤ℤ pos 2047)
  pub hend : (pos 2 ≤ℤ q.image_hend) × (q.image_hend ≤ℤ pos 2048)
  pub vend : (pos 2 ≤ℤ q.image_vend) × (q.image_vend ≤ℤ pos 2048)
  pub exposure : float_lt_zero q.exposure ≡ false
  pub mode : q.read_out_mode ≡ ReadOutMode.image
  pub folder : q.save_dir ≡ fits_dir

ne_zero : (n : ℤ) → eqb_ℤ n (pos 0) ≡ false → n ≢ pos 0
ne_zero n h = λ e. ground arith

start_range : (n : ℤ) → bad_start n ≡ false → (pos 1 ≤ℤ n) × (n ≤ℤ pos 2047)
start_range n h = ground arith

end_range : (n : ℤ) → bad_end n ≡ false → (pos 2 ≤ℤ n) × (n ≤ℤ pos 2048)
end_range n h = ground arith

pub image_mode : (m : ReadOutMode) → is_image_mode m ≡ true → m ≡ ReadOutMode.image
image_mode m h = ground arith

-- Each of the final tests has passed.
all_pass :
    (a b c d e f g : Bool)
    → (a || b || (c || d) || (e || f) || g) ≡ false
    → (a ≡ false)
      × (b ≡ false)
      × (c ≡ false)
      × (d ≡ false)
      × (e ≡ false)
      × (f ≡ false)
      × (g ≡ false)
all_pass a b c d e f g h = ground arith

final_status-IsValid :
    (p : AndorParameters)
    → is_image_mode p.read_out_mode ≡ true
    → final_status p ≡ 0
    → IsValid (record p { save_dir = fits_dir })
unfolding final_status
final_status-IsValid p m h =
    let (vb, hb, hs, vs, he, ve, ex) = all_pass _ _ _ _ _ _ _ (if-eq_zero _ 1 h) in
    record {
      hbin = ne_zero p.image_hbin hb;
      vbin = ne_zero p.image_vbin vb;
      hstart = start_range p.image_hstart hs;
      vstart = start_range p.image_vstart vs;
      hend = end_range p.image_hend he;
      vend = end_range p.image_vend ve;
      exposure = ex;
      mode = image_mode p.read_out_mode m;
      folder = refl;
    }

final_tests-IsValid : (p : AndorParameters) → (final_tests p).0 ≡ 0 → IsValid (final_tests p).1
unfolding final_tests
final_tests-IsValid p h = elim (Bool-cases (is_image_mode p.read_out_mode)) [
  | inl m ↦ rw (m, final_tests) (final_status-IsValid p m (rw (m, final_tests) at h))
  | inr m ↦ absurd (ground arith)
]

then_final-IsValid :
    (r : ℕ × AndorParameters) (q : AndorParameters) → then_final r ≡ (0, q) → IsValid q
then_final-IsValid (zero, p) q h =
    subst IsValid (ap (λ (x : ℕ × AndorParameters). x.1) h)
      (final_tests-IsValid p (ap (λ (x : ℕ × AndorParameters). x.0) h))
then_final-IsValid (suc c, p) q h = absurd (ground arith)

-- A command that is accepted leaves valid parameters, whatever they were before.
pub resolve_image_parameters-IsValid :
    (pf : Platform) (command : Bytes) (p q : AndorParameters)
    → resolve_image_parameters pf command p ≡ (0, q)
    → IsValid q
unfolding resolve_image_parameters
resolve_image_parameters-IsValid pf command p q h =
    elim (Bool-cases (starts_with (codes "image") command)) [
      | inl s ↦ elim (Bool-cases (is_image_mode p.read_out_mode)) [
        | inl m ↦
            then_final-IsValid (resolve_options pf (drop 1 (tokens command)) p) q
              (rw (s, m, resolve_image_parameters) at h)
        | inr m ↦ absurd (ground arith)
      ]
      | inr s ↦ absurd (ground arith)
    ]
