-- ===== src/Headers/Tests.antt =====
-- Headers as the daemon makes them, and the theorems at these.
use andor2k.Base.{◌*◌, ◌≡◌, refl, [], ◌∷◌, some, none, true, false, arith, pos}
use andor2k.Base.Text.{codes, str_eq}
use andor2k.Params.{Platform}
use andor2k.Headers.{
  FitsHeader, FitsHeaders, create_fits_header, ival, cval, find_header, update, merge, no_headers,
  value_type,
}
use andor2k.Headers.Update
use andor2k.Headers.Merge

abbrev doubling : Platform
doubling = record {
  strtod = λ s. none;
  strtod_int = λ s. pos 0;
  to_millisec = λ x. pos 0;
  start_time_correction = λ a b c d e. pos 0;
  grow = λ n. 2 * n;
}

abbrev binning : FitsHeader
binning = record { key = codes "VBIN"; comment = codes "Vertical binning"; value = ival (pos 2) }

abbrev observer : FitsHeader
observer = record { key = codes "OBSERVER"; comment = []; value = cval (codes "andor2k") }

abbrev wrong_type : FitsHeader
wrong_type = record { key = codes "VBIN"; comment = []; value = cval (codes "two") }

abbrev two_headers : FitsHeaders
two_headers = record { mvec = binning ∷ observer ∷ []; capacity = 2 }

abbrev roomy : FitsHeaders
roomy = record { mvec = binning ∷ observer ∷ []; capacity = 100 }

trimmed : (create_fits_header (codes "  VBIN ") (ival (pos 2)) []).key ≡ codes "VBIN"
unfolding create_fits_header
trimmed = refl

find_header-update_example :
    find_header (codes "VBIN") (update doubling binning two_headers).0.mvec ≡ some binning
unfolding update str_eq
find_header-update_example = Update.find_header-update doubling (codes "VBIN") binning two_headers

two_headers-IsDistinct : Update.IsDistinct two_headers.mvec
unfolding find_header str_eq
two_headers-IsDistinct = (refl, (refl, tt))

merge_keeps_example :
    (h' : FitsHeader) × (find_header
        (codes "VBIN")
        (merge doubling (wrong_type ∷ []) false roomy).0.mvec
      ≡ some h')
    × (value_type h'.value ≡ value_type binning.value)
unfolding find_header str_eq
merge_keeps_example =
    Merge.merge_keeps doubling (wrong_type ∷ []) false roomy (codes "VBIN") binning (omega arith)
      refl

merge_forgets_example :
    merge doubling (binning ∷ []) true two_headers
    ≡ merge doubling (binning ∷ []) true (no_headers 3)
merge_forgets_example = Merge.merge_forgets doubling (binning ∷ []) true two_headers (omega arith)

-- The observer is lost.
observer_lost :
    find_header (codes "OBSERVER") (merge doubling (binning ∷ []) true two_headers).0.mvec ≡ none
unfolding merge str_eq
observer_lost = refl
