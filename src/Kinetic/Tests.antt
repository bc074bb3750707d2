-- ===== src/Kinetic/Tests.antt =====
-- A camera that takes one image at a time.
use andor2k.Base.{
  false, ◌∙◌, ap, not, ◌≤◌, Bool, ◌∷◌, [], ℕ, suc, ◌≡◌, ◌≢◌, refl, true, none, some, arith, pos,
  ltb_ℤ,
}
use andor2k.Base.Text.{codes}
use andor2k.Params.{AndorParameters, kinetic_series, single_scan}
use andor2k.Params.Samples.{no_floats, defaults}
use andor2k.Headers.{no_headers}
use andor2k.Driver.{
  start_acquisition, start_acquisition, success, Event, call, read_sig_abort, read_sig_interrupt,
  Environment, History, get_total_number_images_acquired,
}
use andor2k.Driver.Messages.{dones}
use andor2k.Driver.Threads.{IsQuiet}
use andor2k.Kinetic.{get_kinetic_scan, get_acquisition}
use andor2k.Kinetic.Threads
use andor2k.Kinetic.Told
use andor2k.Kinetic.Told.{IsTold}
use andor2k.Kinetic.Progress
use andor2k.Kinetic.Progress.{last_total, IsProgressing}

abbrev is_signal : Event → Bool
is_signal read_sig_abort = true
is_signal read_sig_interrupt = true
is_signal _ = false

-- How often the number of images was asked for.
abbrev asked : History → ℕ
asked [] = 0
asked (e ∷ h) = elim e [
  | call c ↦ elim c [ get_total_number_images_acquired ↦ suc (asked h) | _ ↦ asked h ]
  | _ ↦ asked h
]

abbrev working : Environment
working h e = record {
  status = success;
  flag = not (is_signal e);
  int1 = pos (suc (asked h));
  int2 = pos 0;
  float1 = 0;
  float2 = 0;
  float3 = 0;
  text = codes "a.fits";
  headers = [];
}

total_bound : (h : History) → (m : ℕ) × (last_total working h ≡ pos m) × (m ≤ asked h)
total_bound [] = (0, refl, omega arith)
total_bound (call get_total_number_images_acquired ∷ h) = (suc (asked h), refl, omega arith)
total_bound (call start_acquisition ∷ h) = (0, refl, omega arith)
total_bound (_ ∷ h) = total_bound h

working-IsProgressing : IsProgressing working
working-IsProgressing h =
    let (m, e, le) = total_bound h in
    (refl, ap (λ z. ltb_ℤ z (pos (suc (asked h)))) e ∙ ground (arith, le))

abbrev series : AndorParameters
series = record defaults { acquisition_mode = kinetic_series; num_images = pos 2 }

two_images :
    (get_kinetic_scan 3 no_floats series (no_headers 0) (pos 2) (pos 2) working []).0 ≡ some 0
unfolding get_kinetic_scan
two_images = refl

abbrev one_image : AndorParameters
one_image = record series { acquisition_mode = single_scan }

get_acquisition-IsQuiet_example :
    IsQuiet working
      (get_acquisition 3 no_floats one_image (no_headers 0) (pos 2) (pos 2) working []).1
get_acquisition-IsQuiet_example =
    Threads.get_acquisition-IsQuiet 3 no_floats one_image (no_headers 0) (pos 2) (pos 2) working []
      (λ h. refl) refl

get_kinetic_scan-IsTold_example :
    IsTold 0
      (dones (get_kinetic_scan 3 no_floats series (no_headers 0) (pos 2) (pos 2) working []).1)
      0
get_kinetic_scan-IsTold_example =
    Told.get_kinetic_scan-IsTold 3 no_floats series (no_headers 0) (pos 2) (pos 2) 0 working []
      two_images

get_kinetic_scan-returns_example :
    (get_kinetic_scan 3 no_floats series (no_headers 0) (pos 2) (pos 2) working []).0 ≢ none
get_kinetic_scan-returns_example =
    Progress.get_kinetic_scan-returns working working-IsProgressing no_floats series (no_headers 0)
      (pos 2) (pos 2) []
