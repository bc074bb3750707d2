-- ===== src/Headers.antt =====
-- src/fits_header.hpp and src/fits_header.cpp: the headers that are written to a FITS file.
-- A `char` array is the string that it holds; the tagged union is one data type.
pub mod Keys
pub mod Update
pub mod Merge
pub mod Force
pub mod Stored
mod Tests
use andor2k.Base.{
  ℕ, ◌+◌, ◌<◌, Bool, true, false, List, [], ◌∷◌, ◌++◌, Option, none, some, ltb, ◌==◌, ◌&&◌,
  if◌then◌else◌, length, ℤ, pos, negsuc, neg_ℕ,
}
use andor2k.Base.Text.{Bytes, str_eq}
use andor2k.Params.{Float, Platform}

pub data ValueType : Type 0 where
  tint tuint tfloat tdouble tchar32 tlong unknown : ValueType

-- The union and its tag.
pub data HeaderValue : Type 0 where
  ival : ℤ → HeaderValue
  uval : ℕ → HeaderValue
  fval : Float → HeaderValue
  dval : ℕ → HeaderValue
  cval : Bytes → HeaderValue
  lval : ℤ → HeaderValue
  untyped : HeaderValue

abbrev pub value_type : HeaderValue → ValueType
value_type (ival n) = tint
value_type (uval n) = tuint
value_type (fval x) = tfloat
value_type (dval x) = tdouble
value_type (cval s) = tchar32
value_type (lval n) = tlong
value_type untyped = unknown

pub record FitsHeader : Type 0 where
  pub key : Bytes
  pub comment : Bytes
  pub value : HeaderValue

-- The loop from the last character back.
pub rtrim : Bytes → Bytes
rtrim [] = []
rtrim (c ∷ s) = elim (rtrim s) [ [] ↦ if c == b' ' then [] else c ∷ [] | d ∷ r ↦ c ∷ d ∷ r ]

pub ltrim : Bytes → Bytes
ltrim [] = []
ltrim (c ∷ s) = if c == b' ' then ltrim s else c ∷ s

-- `create_fits_header` for each type of value: `cpy_chars` trims the key.
unfoldable pub create_fits_header : Bytes → HeaderValue → Bytes → FitsHeader
unfolding rtrim ltrim
create_fits_header key val comment = record {
  key = rtrim (ltrim key);
  comment = comment;
  value = val;
}

-- A vector is its elements and its capacity.
pub record FitsHeaders : Type 0 where
  pub mvec : List FitsHeader
  pub capacity : ℕ

-- `FitsHeaders(size_hint)`
abbrev pub no_headers : ℕ → FitsHeaders
no_headers size_hint = record { mvec = []; capacity = size_hint }

-- `FitsHeaders::clear`: the vector keeps its capacity.
unfoldable pub clear : FitsHeaders → FitsHeaders
clear hs = record hs { mvec = [] }

-- `it->type == hdr.type && it->type != unknown`
abbrev pub same_type : ValueType → ValueType → Bool
same_type tint tint = true
same_type tuint tuint = true
same_type tfloat tfloat = true
same_type tdouble tdouble = true
same_type tchar32 tchar32 = true
same_type tlong tlong = true
same_type _ _ = false

-- The header of a key: what `find_if` stops at.
unfoldable pub find_header : Bytes → List FitsHeader → Option FitsHeader
find_header k [] = none
find_header k (h ∷ hs) = if str_eq h.key k then some h else find_header k hs

-- `*it = hdr`
pub replace_header : FitsHeader → List FitsHeader → List FitsHeader
replace_header hdr [] = []
replace_header hdr (h ∷ hs) = if str_eq h.key hdr.key then hdr ∷ hs else h ∷ replace_header hdr hs

-- `emplace_back`
pub push_back : Platform → FitsHeader → FitsHeaders → FitsHeaders
push_back pf hdr hs = record {
  mvec = hs.mvec ++ hdr ∷ [];
  capacity = if ltb (length hs.mvec) hs.capacity then hs.capacity else pf.grow (length hs.mvec + 1);
}

-- The headers, and the value returned: 1 where the header is new, 0 where it takes the place of one
-- of its key and type, -1 where the types differ.
unfoldable pub update : Platform → FitsHeader → FitsHeaders → FitsHeaders × ℤ
unfolding find_header replace_header push_back
update pf hdr hs = elim (find_header hdr.key hs.mvec) [
  | none ↦ (push_back pf hdr hs, pos 1)
  | some it ↦
      if same_type (value_type it.value) (value_type hdr.value)
      then (record hs { mvec = replace_header hdr hs.mvec }, pos 0)
      else (hs, negsuc 0)
]

-- `FitsHeaders::force_update`, with the value returned.
unfoldable pub force_update : Platform → Bytes → HeaderValue → Bytes → FitsHeaders → FitsHeaders × ℤ
unfolding create_fits_header push_back
force_update pf key val comment hs = (push_back pf (create_fits_header key val comment) hs, pos 1)

-- Where the capacity is short, an empty vector with room for all is swapped in.
pub make_room : ℕ → FitsHeaders → FitsHeaders
make_room added hs =
    if ltb hs.capacity (length hs.mvec + added)
    then record { mvec = []; capacity = length hs.mvec + added }
    else hs

-- The loop over the headers: `errors` counts the failures, `adds` the rest.
pub merge_from : Platform → Bool → List FitsHeader → ℕ → ℕ → FitsHeaders → FitsHeaders × ℤ
unfolding update
merge_from pf stop [] errors adds hs = (hs, if ltb 0 errors then neg_ℕ errors else pos adds)
merge_from pf stop (hdr ∷ hvec) errors adds hs =
    let (hs', failed) = update pf hdr hs in
    let failure = merge_from pf stop hvec (errors + 1) adds hs' in
    let success = merge_from pf stop hvec errors (adds + 1) hs' in
    elim failed [ negsuc _ ↦ if stop then (hs', negsuc 0) else failure | pos _ ↦ success ]

unfoldable pub merge : Platform → List FitsHeader → Bool → FitsHeaders → FitsHeaders × ℤ
unfolding make_room merge_from
merge pf hvec stop_if_error hs = merge_from pf stop_if_error hvec 0 0 (make_room (length hvec) hs)
