-- ===== src/ImageCommand/Buffers.antt =====
-- What src/resolve_image_parameters.cpp does to the parameters on every path, errors included.
use andor2k.Base.{false, ◌==◌, ℕ, ◌≡◌, ◌<◌, arith, length, Bool-cases, inl, inr, zero, suc, drop}
use andor2k.Base.Text.{Bytes, codes, starts_with, tokens}
use andor2k.Params.{Platform, AndorParameters}
use andor2k.ImageCommand.{
  ImageOption, nimages, apply_option, resolve_options, resolve_image_parameters, final_tests,
  then_final, is_image_mode,
}
use andor2k.ImageCommand.Options.{params_of, resolve_options_inv}

-- Each string and its null character fit the `char` array of the parameters.
pub record IsBounded (p : AndorParameters) : Type 0 where
  pub image_filename : length p.image_filename < 128
  pub image_type : length p.image_type < 16
  pub object_name : length p.object_name < 32
  pub filter_name : length p.filter_name < 16
  pub save_dir : length p.save_dir < 128

-- The members that the command has no option for.
pub record SameSetup (p q : AndorParameters) : Type 0 where
  pub read_out_mode : q.read_out_mode ≡ p.read_out_mode
  pub camera_num : q.camera_num ≡ p.camera_num
  pub observer_name : q.observer_name ≡ p.observer_name
  pub initialization_dir : q.initialization_dir ≡ p.initialization_dir
  pub hsspeed : q.hsspeed ≡ p.hsspeed
  pub preampgain : q.preampgain ≡ p.preampgain
  pub shutter_mode : q.shutter_mode ≡ p.shutter_mode
  pub shutter_closing_time : q.shutter_closing_time ≡ p.shutter_closing_time
  pub shutter_opening_time : q.shutter_opening_time ≡ p.shutter_opening_time
  pub num_accumulations : q.num_accumulations ≡ p.num_accumulations
  pub kinetics_cycle_time : q.kinetics_cycle_time ≡ p.kinetics_cycle_time
  pub accumulation_cycle_time : q.accumulation_cycle_time ≡ p.accumulation_cycle_time

apply_option-IsBounded :
    (pf : Platform) (o : ImageOption) (a : Bytes) (p : AndorParameters)
    → IsBounded p
    → IsBounded (params_of (apply_option pf o a p))
unfolding apply_option
apply_option-IsBounded pf nimages a p b = ground arith
apply_option-IsBounded pf o a p b = ground arith

apply_option-SameSetup :
    (pf : Platform) (o : ImageOption) (a : Bytes) (p p' : AndorParameters)
    → SameSetup p' p
    → SameSetup p' (params_of (apply_option pf o a p))
unfolding apply_option
apply_option-SameSetup pf nimages a p p' b = ground arith
apply_option-SameSetup pf o a p p' b = ground arith

-- What the loop keeps and the final tests keep, the whole command keeps.
resolve_inv :
    (P : AndorParameters → Type 0) (pf : Platform)
    → ((o : ImageOption) (a : Bytes) (p : AndorParameters)
        → P p
        → P (params_of (apply_option pf o a p)))
    → ((p : AndorParameters) → P p → P (final_tests p).1)
    → (command : Bytes) (p : AndorParameters) → P p
    → P (resolve_image_parameters pf command p).1
unfolding resolve_image_parameters
resolve_inv P pf keep last command p h = elim (Bool-cases (starts_with (codes "image") command)) [
  | inr s ↦ rw (s, resolve_image_parameters) h
  | inl s ↦ elim (Bool-cases (is_image_mode p.read_out_mode)) [
    | inr m ↦ rw (s, m, resolve_image_parameters) h
    | inl m ↦
        rw (s, m, resolve_image_parameters)
          (last_lem (resolve_options pf (drop 1 (tokens command)) p)
            (resolve_options_inv P pf keep (drop 1 (tokens command)) p h))
  ]
]
  where
    last_lem : (r : ℕ × AndorParameters) → P r.1 → P (then_final r).1
    last_lem (zero, q) k = last q k
    last_lem (suc c, q) k = let e : (suc c == 0) ≡ false = ground arith in rw e k

-- Whatever the command and the outcome, no string outgrows its buffer.
pub resolve_image_parameters-IsBounded :
    (pf : Platform) (command : Bytes) (p : AndorParameters)
    → IsBounded p
    → IsBounded (resolve_image_parameters pf command p).1
resolve_image_parameters-IsBounded pf =
    resolve_inv IsBounded pf (apply_option-IsBounded pf) (λ p b. unfold final_tests in ground arith)

-- Whatever the command and the outcome, the members with no option keep their values.
pub resolve_image_parameters-SameSetup :
    (pf : Platform) (command : Bytes) (p : AndorParameters)
    → SameSetup p (resolve_image_parameters pf command p).1
resolve_image_parameters-SameSetup pf command p =
    resolve_inv (SameSetup p) pf (λ o a q. apply_option-SameSetup pf o a q p)
      (λ q b. unfold final_tests in ground arith) command p (ground arith)
