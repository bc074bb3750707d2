-- ===== src/FitsImage.antt =====
-- FitsImage of src/cppfits.hpp: the file that an image and its headers are written to. cfitsio is not
-- part of the repository: a call is an entry of a history, the newest first, and its status is what an
-- argument answers. What is printed is left out.
pub mod Applied
mod Tests
use andor2k.Base.{
  ℕ, suc, Bool, true, false, ◌&&◌, ◌||◌, List, [], ◌∷◌, if◌then◌else◌, ltb, ℤ, pos, negsuc, neg_ℕ,
  ◌*ℤ◌, ltb_ℤ,
}
use andor2k.Base.Text.{Bytes}
use andor2k.Headers.{
  FitsHeader, FitsHeaders, HeaderValue, ival, uval, fval, dval, cval, lval, untyped,
}

-- The codes T… of fitsio.h that the source names.
pub data TypeCode : Type 0 where
  tshort tushort tint tuint tlong tulong tfloat tdouble tstring : TypeCode

-- The types of C that an image or a value has.
pub data CType : Type 0 where
  int8 uint16 int16 uint32 int32 uint64 int64 : CType

-- `cfitsio_bitpix<T>::bitpix`
unfoldable pub bitpix : CType → ℕ
bitpix int8 = 8
bitpix uint16 = 16
bitpix int16 = 16
bitpix uint32 = 32
bitpix int32 = 32
bitpix uint64 = 64
bitpix int64 = 32

-- The calls of cfitsio on a file. A value of a key is the header's.
pub data FitsCall : Type 0 where
  create_file : Bytes → FitsCall
  create_img : ℕ → ℤ → ℤ → FitsCall
  write_img : TypeCode → ℤ → FitsCall
  update_key : TypeCode → Bytes → HeaderValue → Bytes → FitsCall
  close_file : FitsCall

-- The status after a call, from the calls before it and the status that goes in.
abbrev pub Cfitsio : Type 0
Cfitsio = List FitsCall → FitsCall → ℤ → ℤ

-- The constructor.
pub open_image : Bytes → List FitsCall → List FitsCall
open_image fn h = create_file fn ∷ h

-- `write`, of values of a type with the code `code`: the second call gets the status of the first.
pub write : Cfitsio → CType → TypeCode → ℤ → ℤ → List FitsCall → ℤ × List FitsCall
unfolding bitpix
write cf t code xpixels ypixels h =
    let create = create_img (bitpix t) ypixels xpixels in
    let fill = write_img code (xpixels *ℤ ypixels) in
    (cf (create ∷ h) fill (cf h create (pos 0)), fill ∷ create ∷ h)

pub close : Cfitsio → List FitsCall → ℤ × List FitsCall
close cf h = (cf h close_file (pos 0), close_file ∷ h)

-- `fits_update_key` with a status of its own.
pub update_with : Cfitsio → TypeCode → FitsHeader → List FitsCall → ℤ × List FitsCall
update_with cf code hdr h =
    let update = update_key code hdr.key hdr.value hdr.comment in (cf h update (pos 0), update ∷ h)

-- The switch over the type of a header, which has no case for a `long`.
pub apply_header : Cfitsio → FitsHeader → HeaderValue → List FitsCall → ℤ × List FitsCall
unfolding update_with
apply_header cf hdr (cval _) h = update_with cf tstring hdr h
apply_header cf hdr (ival _) h = update_with cf tint hdr h
apply_header cf hdr (fval _) h = update_with cf tfloat hdr h
apply_header cf hdr (uval _) h = update_with cf tuint hdr h
apply_header cf hdr (dval _) h = update_with cf tdouble hdr h
apply_header cf hdr (lval _) h = (negsuc 99, h)
apply_header cf hdr untyped h = (negsuc 99, h)

-- status < -99 || (status < 0 && stop_if_error)
abbrev pub gives_up : Bool → ℤ → Bool
gives_up stop_if_error status = ltb_ℤ status (negsuc 98) || ltb_ℤ status (pos 0) && stop_if_error

-- The loop: `errors` counts the statuses under 0, `applied` those above it.
pub apply_from : Cfitsio → Bool → List FitsHeader → ℕ → ℕ → List FitsCall → ℤ × List FitsCall
unfolding apply_header
apply_from cf stop [] applied errors h = (if ltb 0 errors then neg_ℕ errors else pos applied, h)
apply_from cf stop (hdr ∷ hdrs) applied errors h =
    let (status, h') = apply_header cf hdr hdr.value h in
    let more =
      apply_from cf stop hdrs (if ltb_ℤ (pos 0) status then suc applied else applied)
        (if ltb_ℤ status (pos 0) then suc errors else errors) h' in
    if gives_up stop status then (status, h') else more

unfoldable pub apply_headers : Cfitsio → FitsHeaders → Bool → List FitsCall → ℤ × List FitsCall
unfolding apply_from
apply_headers cf headers stop_if_error h = apply_from cf stop_if_error headers.mvec 0 0 h
