-- ===== src/FitsImage/Tests.antt =====
-- A file whose cfitsio refuses one key.
use andor2k.Base.{true, ◌≡◌, refl, arith, [], ◌∷◌, pos, if◌then◌else◌}
use andor2k.Base.Text.{codes, str_eq}
use andor2k.Headers.{FitsHeaders, create_fits_header, ival, fval}
use andor2k.FitsImage.{
  CType, TypeCode, FitsCall, update_key, Cfitsio, open_image, write, close, apply_headers,
}
use andor2k.FitsImage.Applied

abbrev refuses_gain : Cfitsio
refuses_gain h (update_key _ key _ _) s = if str_eq key (codes "GAIN") then pos 204 else s
refuses_gain h _ s = s

abbrev gain_and_bin : FitsHeaders
gain_and_bin = record {
  mvec =
      create_fits_header (codes "GAIN") (fval 0) []
      ∷ create_fits_header (codes "VBIN") (ival (pos 1)) []
      ∷ [];
  capacity = 100;
}

refused : (apply_headers refuses_gain gain_and_bin true []).0 ≡ pos 1
unfolding apply_headers create_fits_header str_eq
refused = refl

written :
    (write refuses_gain CType.int32 TypeCode.tint (pos 3) (pos 2) (open_image [] [])).0 ≡ pos 0
unfolding write
written = refl

closed : (close refuses_gain []).0 ≡ pos 0
unfolding close
closed = refl

refuses_gain_statuses : Applied.HasStatuses refuses_gain
refuses_gain_statuses h (update_key _ key _ _) = ground arith
refuses_gain_statuses h (FitsCall.create_file _) = refl
refuses_gain_statuses h (FitsCall.create_img _ _ _) = refl
refuses_gain_statuses h (FitsCall.write_img _ _) = refl
refuses_gain_statuses h FitsCall.close_file = refl

apply_headers_lem_example : apply_headers refuses_gain gain_and_bin true [] ≡ (
  pos (Applied.refused refuses_gain gain_and_bin.mvec []),
  Applied.updates gain_and_bin.mvec [],
)
unfolding create_fits_header
apply_headers_lem_example =
    Applied.apply_headers_lem refuses_gain refuses_gain_statuses gain_and_bin true []
