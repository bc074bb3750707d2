-- ===== src/Headers/Stored.antt =====
-- The arrays of `FitsHeader` of src/fits_header.hpp, which `create_fits_header` fills with strcpy:
-- the strings of a header, each with its null character, fit them.
use andor2k.Base.{
  ℕ, ◌<◌, ◌≤◌, List, [], ◌∷◌, ◌++◌, arith, length, inl, inr, Bool, Option-cases, Bool-cases, ltb,
  ◌+◌,
}
use andor2k.Base.Text.{Bytes}
use andor2k.Params.{Platform}
use andor2k.Headers.{
  FitsHeader, FitsHeaders, HeaderValue, cval, create_fits_header, rtrim, ltrim, update, merge,
  merge_from, make_room, push_back, replace_header, find_header, same_type, value_type,
}
use andor2k.Headers.Merge.{ℤ-cases}

abbrev pub IsStoredValue : HeaderValue → Type 0
IsStoredValue (cval s) = length s < 32
IsStoredValue _ = Unit {0}

pub record IsStored (h : FitsHeader) : Type 0 where
  pub key : length h.key < 16
  pub comment : length h.comment < 64
  pub value : IsStoredValue h.value

abbrev pub AllStored : List FitsHeader → Type 0
AllStored [] = Unit {0}
AllStored (h ∷ hs) = IsStored h × AllStored hs

length-rtrim : (s : Bytes) → length (rtrim s) ≤ length s
unfolding rtrim
length-rtrim [] = omega arith
length-rtrim (c ∷ s) = ground (arith, length-rtrim s)

length-ltrim : (s : Bytes) → length (ltrim s) ≤ length s
unfolding ltrim
length-ltrim [] = omega arith
length-ltrim (c ∷ s) = ground (arith, length-ltrim s)

-- A key that fits still does when it is trimmed.
pub create_fits_header-IsStored :
    (key comment : Bytes) (val : HeaderValue)
    → length key < 16
    → length comment < 64
    → IsStoredValue val
    → IsStored (create_fits_header key val comment)
unfolding create_fits_header
create_fits_header-IsStored key comment val k c v = record {
  key = ground (arith, length-rtrim (ltrim key), length-ltrim key);
  comment = c;
  value = v;
}

pub append-AllStored :
    (hs hs' : List FitsHeader) → AllStored hs → AllStored hs' → AllStored (hs ++ hs')
append-AllStored [] hs' a b = b
append-AllStored (x ∷ hs) hs' (s, a) b = (s, append-AllStored hs hs' a b)

replace_header-AllStored :
    (hdr : FitsHeader) (hs : List FitsHeader)
    → IsStored hdr
    → AllStored hs
    → AllStored (replace_header hdr hs)
unfolding replace_header
replace_header-AllStored hdr [] s a = tt
replace_header-AllStored hdr (x ∷ hs) s a = ground (arith, replace_header-AllStored hdr hs)

pub update-AllStored :
    (pf : Platform) (hdr : FitsHeader) (hs : FitsHeaders)
    → IsStored hdr
    → AllStored hs.mvec
    → AllStored (update pf hdr hs).0.mvec
update-AllStored pf hdr hs s a = elim (Option-cases (find_header hdr.key hs.mvec)) [
  | inl e ↦
      unfold update push_back in rw (e, update) (append-AllStored hs.mvec (hdr ∷ []) a (s, tt))
  | inr (it, e) ↦ elim (Bool-cases (same_type (value_type it.value) (value_type hdr.value))) [
    | inl same ↦ unfold update in rw (e, update, same) (replace_header-AllStored hdr hs.mvec s a)
    | inr other ↦ unfold update in rw (e, update, other) a
  ]
]

merge_from-AllStored :
    (pf : Platform) (stop : Bool) (hvec : List FitsHeader) (errors adds : ℕ) (hs : FitsHeaders)
    → AllStored hvec
    → AllStored hs.mvec
    → AllStored (merge_from pf stop hvec errors adds hs).0.mvec
unfolding merge_from
merge_from-AllStored pf stop [] errors adds hs v a = a
merge_from-AllStored pf stop (hdr ∷ hvec) errors adds hs (s, v) a =
    let a' = update-AllStored pf hdr hs s a in
    let hs' = (update pf hdr hs).0 in
    elim (ℤ-cases (update pf hdr hs).1) [
      | inl (n, e) ↦
          rw (e, merge_from) (merge_from-AllStored pf stop hvec errors (adds + 1) hs' v a')
      | inr (n, e) ↦ elim (Bool-cases stop) [
        | inl t ↦ rw (e, merge_from, t) a'
        | inr t ↦
            rw (e, merge_from, t) (merge_from-AllStored pf stop hvec (errors + 1) adds hs' v a')
      ]
    ]

pub merge-AllStored :
    (pf : Platform) (hvec : List FitsHeader) (stop : Bool) (hs : FitsHeaders)
    → AllStored hvec
    → AllStored hs.mvec
    → AllStored (merge pf hvec stop hs).0.mvec
unfolding merge make_room
merge-AllStored pf hvec stop hs v a =
    merge_from-AllStored pf stop hvec 0 0 (make_room (length hvec) hs) v
      (elim (Bool-cases (ltb hs.capacity (length hs.mvec + length hvec))) [
        | inl short ↦ rw (short, make_room) tt
        | inr room ↦ rw (room, make_room) a
      ])
