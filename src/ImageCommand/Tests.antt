-- ===== src/ImageCommand/Tests.antt =====
-- Commands as a client sends them, and the theorems at these.
use andor2k.Base.{◌≡◌, refl, pos}
use andor2k.Base.Text.{codes}
use andor2k.Params.{AndorParameters}
use andor2k.Params.Samples.{no_floats, defaults}
use andor2k.ImageCommand.{resolve_image_parameters}

abbrev binned : AndorParameters
binned = record defaults {
  image_hbin = pos 4;
  image_vbin = pos 2;
  image_filename = codes "foobar";
  image_type = codes "object";
}

two_by_four :
    resolve_image_parameters no_floats
      (codes "image --vbin 2  --hbin +4 --filename foobar --dry --type object")
      defaults
    ≡ (0, binned)
unfolding resolve_image_parameters
two_by_four = refl

zero_binning : (resolve_image_parameters no_floats (codes "image --bin 0") defaults).0 ≡ 2
unfolding resolve_image_parameters
zero_binning = refl

no_argument : (resolve_image_parameters no_floats (codes "image --bin") defaults).0 ≡ 1
unfolding resolve_image_parameters
no_argument = refl

-- A negative binning is no zero, and is let through.
negative_binning : (resolve_image_parameters no_floats (codes "image --bin -3") defaults).0 ≡ 0
unfolding resolve_image_parameters
negative_binning = refl
