-- ===== src/Headers/Merge.antt =====
-- What `FitsHeaders::merge` of src/fits_header.cpp does to the headers that are there and to those
-- that are added.
use andor2k.Base.{
  sym, ap, ◌∙◌, inl, inr, ◌⊎◌, inr, inl, ◌⊎◌, ℕ, ◌+◌, ◌≤◌, ◌<◌, ◌≡◌, refl, Bool, false, ◌∷◌, some,
  arith, if◌then◌else◌, ltb, length, neg_ℕ, Bool-cases, ℤ, pos, negsuc, List, [],
}
use andor2k.Base.Text.{Bytes}
use andor2k.Params.{Platform}
use andor2k.Headers.Update.{is_success, update-value_type, update-IsDistinct, IsDistinct}
use andor2k.Headers.{
  FitsHeader, FitsHeaders, no_headers, find_header, update, make_room, merge_from, merge,
  value_type,
}

pub ℤ-cases : (z : ℤ) → ((n : ℕ) × (z ≡ pos n)) ⊎ ((n : ℕ) × (z ≡ negsuc n))
ℤ-cases (pos n) = inl (n, refl)
ℤ-cases (negsuc n) = inr (n, refl)

-- What holds before the loop and is kept by every update holds after it, however it ends.
merge_from_inv :
    (P : FitsHeaders → Type 0) (pf : Platform) (stop : Bool)
    → ((hdr : FitsHeader) (hs : FitsHeaders) → P hs → P (update pf hdr hs).0)
    → (hvec : List FitsHeader) (errors adds : ℕ) (hs : FitsHeaders) → P hs
    → P (merge_from pf stop hvec errors adds hs).0
unfolding merge_from
merge_from_inv P pf stop keep [] errors adds hs p = p
merge_from_inv P pf stop keep (hdr ∷ hvec) errors adds hs p = elim (ℤ-cases (update pf hdr hs).1) [
  | inl (n, e) ↦
      rw (e, merge_from)
        (merge_from_inv P pf stop keep hvec errors (adds + 1) (update pf hdr hs).0 (keep hdr hs p))
  | inr (n, e) ↦ elim (Bool-cases stop) [
    | inl s ↦ rw (e, merge_from, s) (keep hdr hs p)
    | inr s ↦
        rw (e, merge_from, s)
          (merge_from_inv P pf stop keep hvec (errors + 1) adds (update pf hdr hs).0
            (keep hdr hs p))
  ]
]

-- A merge keeps the keys distinct, whatever the capacity and however it ends.
pub merge-IsDistinct :
    (pf : Platform) (hvec : List FitsHeader) (stop : Bool) (hs : FitsHeaders)
    → IsDistinct hs.mvec
    → IsDistinct (merge pf hvec stop hs).0.mvec
unfolding merge make_room
merge-IsDistinct pf hvec stop hs d =
    merge_from_inv (λ q. IsDistinct q.mvec) pf stop (update-IsDistinct pf) hvec 0 0 _
      (elim (Bool-cases (ltb hs.capacity (length hs.mvec + length hvec))) [
        | inl short ↦ rw (short, make_room) tt
        | inr room ↦ rw (room, make_room) d
      ])

room_lem :
    (hs : FitsHeaders) (hvec : List FitsHeader)
    → length hs.mvec + length hvec ≤ hs.capacity
    → make_room (length hvec) hs ≡ hs
unfolding make_room
room_lem hs hvec h = ground arith

-- Where the capacity suffices for all, a merge loses no key, and no key changes its type.
pub merge_keeps :
    (pf : Platform) (hvec : List FitsHeader) (stop : Bool) (hs : FitsHeaders) (k : Bytes)
    (h : FitsHeader)
    → length hs.mvec + length hvec ≤ hs.capacity
    → find_header k hs.mvec ≡ some h
    → (h' : FitsHeader) × (find_header k (merge pf hvec stop hs).0.mvec ≡ some h')
      × (value_type h'.value ≡ value_type h.value)
unfolding merge make_room
merge_keeps pf hvec stop hs k h room e =
    merge_from_inv
      (λ q.
        (h' : FitsHeader) × (find_header k q.mvec ≡ some h')
        × (value_type h'.value ≡ value_type h.value))
      pf stop
      (λ hdr q (h', found, same).
        let (h'', found', same') = update-value_type pf k hdr h' q found in
        (h'', found', same' ∙ same))
      hvec 0 0 (make_room (length hvec) hs) (rw (room_lem hs hvec room) (h, e, refl))

-- Where the capacity does not suffice for the headers that are there and those that are added, the
-- former are lost: the outcome, the value returned included, is that of a merge into no headers.
pub merge_forgets :
    (pf : Platform) (hvec : List FitsHeader) (stop : Bool) (hs : FitsHeaders)
    → hs.capacity < length hs.mvec + length hvec
    → merge pf hvec stop hs ≡ merge pf hvec stop (no_headers (length hs.mvec + length hvec))
unfolding merge make_room
merge_forgets pf hvec stop hs short =
    let n = length hs.mvec + length hvec in
    let swapped : make_room (length hvec) hs ≡ no_headers n = ground arith in
    ap (merge_from pf stop hvec 0 0) (swapped ∙ sym (room_lem (no_headers n) hvec (omega arith)))

-- How many of the headers, taken in order, meet a header of another type under their key.
pub failures : Platform → List FitsHeader → FitsHeaders → ℕ
failures pf [] hs = 0
failures pf (hdr ∷ hvec) hs =
    (if is_success (update pf hdr hs).1 then 0 else 1) + failures pf hvec (update pf hdr hs).0

merge_from_count :
    (pf : Platform) (hvec : List FitsHeader) (errors adds : ℕ) (hs : FitsHeaders)
    → (merge_from pf false hvec errors adds hs).1 ≡ (
        if ltb 0 (errors + failures pf hvec hs)
        then neg_ℕ (errors + failures pf hvec hs)
        else pos (adds + length hvec))
unfolding merge_from failures
merge_from_count pf [] errors adds hs = ground arith
merge_from_count pf (hdr ∷ hvec) errors adds hs = elim (ℤ-cases (update pf hdr hs).1) [
  | inl (n, e) ↦
      rw (e, merge_from)
        (ground (arith, merge_from_count pf hvec errors (adds + 1) (update pf hdr hs).0))
  | inr (n, e) ↦
      rw (e, merge_from)
        (ground (arith, merge_from_count pf hvec (errors + 1) adds (update pf hdr hs).0))
]

-- A merge that does not stop at errors returns the number of headers given if it meets no error, and
-- minus the number of its errors else.
pub merge_count :
    (pf : Platform) (hvec : List FitsHeader) (hs : FitsHeaders)
    → let bad = failures pf hvec (make_room (length hvec) hs) in
      (merge pf hvec false hs).1 ≡ (if ltb 0 bad then neg_ℕ bad else pos (length hvec))
unfolding merge
merge_count pf hvec hs = ground (arith, merge_from_count pf hvec 0 0 (make_room (length hvec) hs))
