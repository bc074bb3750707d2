-- ===== src/FitsImage/Applied.antt =====
-- Which headers apply_headers of src/cppfits.hpp writes, and what it returns.
use andor2k.Base.{
  ◌∙◌, ℕ, suc, ◌+◌, ◌≡◌, refl, Bool, true, false, List, [], ◌∷◌, arith, ℤ, pos, negsuc, ltb_ℤ,
  if◌then◌else◌, Bool-cases, inl, inr,
}
use andor2k.Headers.{
  FitsHeader, FitsHeaders, HeaderValue, ival, uval, fval, dval, cval, lval, untyped,
}
use andor2k.FitsImage.{
  gives_up, TypeCode, tint, tuint, tfloat, tdouble, tstring, FitsCall, update_key, Cfitsio,
  update_with, apply_header, apply_from, apply_headers,
}

-- The code for the type in which a header holds its value; a `long` has none in the program.
abbrev pub has_code : HeaderValue → Bool
has_code (lval _) = false
has_code untyped = false
has_code _ = true

abbrev pub code_of : HeaderValue → TypeCode
code_of (cval _) = tstring
code_of (ival _) = tint
code_of (uval _) = tuint
code_of (fval _) = tfloat
code_of (dval _) = tdouble
code_of _ = tstring

abbrev pub update_of : FitsHeader → FitsCall
update_of hdr = update_key (code_of hdr.value) hdr.key hdr.value hdr.comment

-- The calls for the headers before the first with no code, the newest first, on those before them.
abbrev pub updates : List FitsHeader → List FitsCall → List FitsCall
updates [] h = h
updates (hdr ∷ hdrs) h = if has_code hdr.value then updates hdrs (update_of hdr ∷ h) else h

-- Each header has a code.
abbrev pub all_coded : List FitsHeader → Bool
all_coded [] = true
all_coded (hdr ∷ hdrs) = if has_code hdr.value then all_coded hdrs else false

-- The updates that cfitsio refuses.
abbrev pub refused : Cfitsio → List FitsHeader → List FitsCall → ℕ
refused cf [] h = 0
refused cf (hdr ∷ hdrs) h =
    (if ltb_ℤ (pos 0) (cf h (update_of hdr) (pos 0)) then 1 else 0)
    + refused cf hdrs (update_of hdr ∷ h)

-- The statuses of cfitsio: 0, or a positive number for an error.
abbrev pub HasStatuses : Cfitsio → Type 0
HasStatuses cf = (h : List FitsCall) (c : FitsCall) → ltb_ℤ (cf h c (pos 0)) (pos 0) ≡ false

apply_header_coded :
    (cf : Cfitsio) (hdr : FitsHeader) (v : HeaderValue) (h : List FitsCall)
    → has_code v ≡ true
    → apply_header cf hdr v h ≡ update_with cf (code_of v) hdr h
unfolding apply_header
apply_header_coded cf hdr (lval _) h e = ground arith
apply_header_coded cf hdr untyped h e = ground arith
apply_header_coded cf hdr _ h e = refl

apply_header_uncoded :
    (cf : Cfitsio) (hdr : FitsHeader) (v : HeaderValue) (h : List FitsCall)
    → has_code v ≡ false
    → apply_header cf hdr v h ≡ (negsuc 99, h)
unfolding apply_header
apply_header_uncoded cf hdr (lval _) h e = refl
apply_header_uncoded cf hdr untyped h e = refl
apply_header_uncoded cf hdr (cval _) h e = ground arith
apply_header_uncoded cf hdr (ival _) h e = ground arith
apply_header_uncoded cf hdr (uval _) h e = ground arith
apply_header_uncoded cf hdr (fval _) h e = ground arith
apply_header_uncoded cf hdr (dval _) h e = ground arith

goes_on : (stop : Bool) (z : ℤ) → ltb_ℤ z (pos 0) ≡ false → gives_up stop z ≡ false
goes_on stop (pos n) e = ground arith
goes_on stop (negsuc n) e = absurd (ground arith)

counted : (b : Bool) (n r : ℕ) → (if b then suc n else n) + r ≡ n + ((if b then 1 else 0) + r)
counted true n r = omega arith
counted false n r = omega arith

apply_from_lem :
    (cf : Cfitsio)
    → HasStatuses cf
    → (stop : Bool) (hdrs : List FitsHeader) (applied : ℕ) (h : List FitsCall)
    → apply_from cf stop hdrs applied 0 h
      ≡ (if all_coded hdrs then pos (applied + refused cf hdrs h) else negsuc 99, updates hdrs h)
unfolding apply_from update_with
apply_from_lem cf s stop [] applied h = ground arith
apply_from_lem cf s stop (hdr ∷ hdrs) applied h = elim (Bool-cases (has_code hdr.value)) [
  | inl c ↦
      let u = update_of hdr in
      let ok = s h u in
      rw
        (
          c,
          apply_from,
          apply_header_coded cf hdr hdr.value h c,
          goes_on stop (cf h u (pos 0)) ok,
          ok,
        )
        (apply_from_lem cf s stop hdrs
            (if ltb_ℤ (pos 0) (cf h u (pos 0)) then suc applied else applied) (u ∷ h)
          ∙ rw (counted (ltb_ℤ (pos 0) (cf h u (pos 0))) applied (refused cf hdrs (u ∷ h))) refl)
  | inr u ↦ rw (u, apply_from, apply_header_uncoded cf hdr hdr.value h u) refl
]

zero_add : (n : ℕ) → 0 + n ≡ n
zero_add n = omega arith

-- Where cfitsio's statuses are never negative, apply_headers makes the updates of the headers before
-- the first that holds a `long`, in their order and with the code of their type, and no other. If one
-- does, it returns -100, and otherwise the number of the updates that failed, which is never negative.
pub apply_headers_lem :
    (cf : Cfitsio)
    → HasStatuses cf
    → (hs : FitsHeaders) (stop : Bool) (h : List FitsCall)
    → apply_headers cf hs stop h
      ≡ (if all_coded hs.mvec then pos (refused cf hs.mvec h) else negsuc 99, updates hs.mvec h)
unfolding apply_headers
apply_headers_lem cf s hs stop h =
    rw (apply_from_lem cf s stop hs.mvec 0 h, zero_add (refused cf hs.mvec h)) refl
