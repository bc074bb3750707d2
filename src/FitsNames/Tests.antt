-- ===== src/FitsNames/Tests.antt =====
-- A folder with some names of today's set.
use andor2k.Base.{ℕ, ◌^◌, ◌≤◌, ◌<◌, ◌≡◌, ◌≢◌, refl, true, List, [], ◌∷◌, some, pos, All}
use andor2k.Base.Text.{Bytes, codes, starts_with, strtol}
use andor2k.Base.Decimal.{decimal}
use andor2k.Params.{AndorParameters}
use andor2k.Params.Samples.{defaults}
use andor2k.FitsNames.{make_fits_filename, image_count, numbered}
use andor2k.FitsNames.Fresh

abbrev folder : List Bytes
folder =
    codes "a202211257.fits"
    ∷ codes "a2022112512.fits"
    ∷ codes "b2022112599.fits"
    ∷ codes "a20221125x"
    ∷ []

abbrev named : AndorParameters
named = record defaults { image_filename = codes "a" }

next_name :
    make_fits_filename named true (some (codes "20221125")) folder
    ≡ some (codes "/home/andor2k/fits/a2022112513.fits")
unfolding make_fits_filename starts_with strtol decimal
next_name = refl

numbered_unused_example :
    let stem = codes "a20221125" in
    (n : ℕ) × (image_count stem folder ≡ pos n)
    × (1 ≤ n)
    × (n < 2 ^ 31 → All (λ e. e ≢ numbered stem n) folder)
numbered_unused_example = Fresh.numbered_unused (codes "a20221125") folder
