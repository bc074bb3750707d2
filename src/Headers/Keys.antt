-- ===== src/Headers/Keys.antt =====
-- Looking a key up in the headers of src/fits_header.cpp.
use andor2k.Base.{length, ◌≡◌, refl, List, [], ◌∷◌, ◌++◌, none, some, arith, if◌then◌else◌}
use andor2k.Base.Text.{Bytes, str_eq, str_eq_iff}
use andor2k.Headers.{FitsHeader, find_header, replace_header}

pub find_header-key :
    (k : Bytes) (hs : List FitsHeader) (h : FitsHeader) → find_header k hs ≡ some h → h.key ≡ k
unfolding find_header
find_header-key k [] h e = cc
find_header-key k (x ∷ hs) h e = ground (arith, str_eq_iff x.key k, find_header-key k hs h)

pub find_header-append :
    (k : Bytes) (hs : List FitsHeader) (hdr : FitsHeader)
    → find_header hdr.key hs ≡ none
    → find_header k (hs ++ hdr ∷ []) ≡ (if str_eq hdr.key k then some hdr else find_header k hs)
unfolding find_header
find_header-append k [] hdr e = refl
find_header-append k (x ∷ hs) hdr e = ground (
  arith,
  str_eq_iff x.key k,
  str_eq_iff hdr.key k,
  str_eq_iff x.key hdr.key,
  find_header-append k hs hdr,
)

pub find_header-replace_header :
    (k : Bytes) (hs : List FitsHeader) (hdr it : FitsHeader)
    → find_header hdr.key hs ≡ some it
    → find_header k (replace_header hdr hs)
      ≡ (if str_eq hdr.key k then some hdr else find_header k hs)
unfolding find_header replace_header
find_header-replace_header k [] hdr it e = cc
find_header-replace_header k (x ∷ hs) hdr it e = ground (
  arith,
  str_eq_iff x.key k,
  str_eq_iff hdr.key k,
  str_eq_iff x.key hdr.key,
  find_header-replace_header k hs hdr it,
)

pub length-replace_header :
    (hdr : FitsHeader) (hs : List FitsHeader) → length (replace_header hdr hs) ≡ length hs
unfolding replace_header
length-replace_header hdr [] = refl
length-replace_header hdr (x ∷ hs) = ground (arith, length-replace_header hdr hs)
