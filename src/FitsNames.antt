-- ===== src/FitsNames.antt =====
-- src/fits_filenames.cpp: the name of the next FITS file, [file name][YYYYMMDD][count].fits in the
-- folder of the parameters. Whether the folder is there, today's date and the names in the folder
-- are arguments.
pub mod Fresh
mod Tests
use andor2k.Base.{
  ℕ, Bool, true, false, List, [], ◌∷◌, ◌++◌, Option, none, some, if◌then◌else◌, length, drop, ℤ,
  pos, leb_ℤ, ◌+ℤ◌, to_int32, pos_part,
}
use andor2k.Base.Text.{Bytes, codes, starts_with, strtol, Conversion}
use andor2k.Base.Decimal.{decimal}
use andor2k.Params.{AndorParameters}

-- What one name in the folder does to the count: `end` must be at a '.'.
pub count_index : Option Conversion → ℤ → ℤ
count_index none count = count
count_index (some index) count =
    let current = to_int32 index.value in
    if starts_with (codes ".") index.rest
    then if leb_ℤ count current then current +ℤ pos 1 else count
    else count

-- The loop over the folder.
pub count_images : Bytes → List Bytes → ℤ → ℤ
unfolding count_index
count_images stem [] count = count
count_images stem (existing ∷ entries) count = count_images stem entries (
    if starts_with stem existing
    then count_index (strtol (drop (length stem) existing)) count
    else count)

pub image_count : Bytes → List Bytes → ℤ
unfolding count_images
image_count stem entries = count_images stem entries (pos 1)

pub numbered : Bytes → ℕ → Bytes
numbered stem count = stem ++ (decimal count ++ codes ".fits")

-- `sdir /= filename`: an absolute name takes the place of the folder. The count is positive.
pub in_folder : Bytes → Bytes → Bytes
in_folder dir filename =
    if starts_with (codes "/") filename then filename else dir ++ (codes "/" ++ filename)

pub make_fits_filename : AndorParameters → Bool → Option Bytes → List Bytes → Option Bytes
unfolding numbered in_folder image_count
make_fits_filename p is_directory date entries =
    if is_directory
    then elim date [
      | none ↦ none
      | some today ↦
          let stem = p.image_filename ++ today in
          some (in_folder p.save_dir (numbered stem (pos_part (image_count stem entries))))
    ]
    else none

-- The status, and what is in the buffer: on failure that is what was in it before.
pub get_next_fits_filename : AndorParameters → Bool → Option Bytes → List Bytes → Bytes → ℕ × Bytes
unfolding make_fits_filename
get_next_fits_filename p is_directory date entries fits_fn =
    elim (make_fits_filename p is_directory date entries) [
      | none ↦ (1, fits_fn)
      | some path ↦ (0, path)
    ]
