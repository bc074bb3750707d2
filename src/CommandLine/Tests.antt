-- ===== src/CommandLine/Tests.antt =====
-- Arguments of a program, read from the defaults.
use andor2k.Base.{◌≡◌, ◌↔◌, refl, [], ◌∷◌, List}
use andor2k.Base.Text.{Bytes, codes, starts_with, strtol}
use andor2k.Params.{kinetic_series}
use andor2k.Params.Samples.{no_floats, defaults}
use andor2k.ImageCommand.{resolve_options, option_of}
use andor2k.CommandLine.{resolve_cmd_parameters}
use andor2k.CommandLine.Accepted
use andor2k.CommandLine.Region

abbrev binned : List Bytes
binned = codes "--bin" ∷ codes "2" ∷ codes "more" ∷ []

-- A second string is copied over the first, which is longer.
abbrev two_types : List Bytes
two_types = codes "--type" ∷ codes "light" ∷ codes "--type" ∷ codes "x" ∷ []

mixed : (resolve_cmd_parameters no_floats two_types defaults).1.image_type ≡ codes "xight"
unfolding resolve_cmd_parameters starts_with
mixed = refl

series :
    (resolve_cmd_parameters no_floats
      (codes "--nimages" ∷ codes "3" ∷ [])
      defaults).1.acquisition_mode
    ≡ kinetic_series
unfolding resolve_cmd_parameters starts_with strtol
series = refl

resolve_cmd_parameters_iff_example :
    ((resolve_cmd_parameters no_floats binned defaults).0 ≡ 0) ↔ Accepted.Accepted no_floats binned
resolve_cmd_parameters_iff_example = Accepted.resolve_cmd_parameters_iff no_floats binned defaults

resolve_cmd_parameters-resolve_options_example :
    resolve_cmd_parameters no_floats binned defaults ≡ resolve_options no_floats binned defaults
unfolding option_of starts_with
resolve_cmd_parameters-resolve_options_example =
    Region.resolve_cmd_parameters-resolve_options no_floats binned defaults
      (refl, (refl, (refl, tt))) refl
