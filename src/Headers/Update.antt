-- ===== src/Headers/Update.antt =====
-- What `FitsHeaders::update` of src/fits_header.cpp promises.
use andor2k.Base.{
  refl, length, ◌⊎◌, [], ◌++◌, ◌∷◌, List, arith, none, inr, inl, ◌≡◌, Bool, true, false, ◌&&◌, some,
  if◌then◌else◌, Option-cases, Bool-cases, ℤ, pos, negsuc,
}
use andor2k.Base.Text.{str_eq_iff, Bytes, str_eq}
use andor2k.Params.{Platform}
use andor2k.Headers.Keys.{length-replace_header, find_header-append, find_header-replace_header}
use andor2k.Headers.{
  ValueType, replace_header, FitsHeader, FitsHeaders, find_header, push_back, update, value_type,
  same_type,
}

abbrev pub is_success : ℤ → Bool
is_success (pos _) = true
is_success (negsuc _) = false

-- After an update that succeeds the key has the new header, every other key has the header that it
-- had before, and an update that fails changes no key.
pub find_header-update :
    (pf : Platform) (k : Bytes) (hdr : FitsHeader) (hs : FitsHeaders)
    → find_header k (update pf hdr hs).0.mvec ≡ (
        if is_success (update pf hdr hs).1 && str_eq hdr.key k
        then some hdr
        else find_header k hs.mvec)
find_header-update pf k hdr hs = elim (Option-cases (find_header hdr.key hs.mvec)) [
  | inl e ↦ unfold update push_back in rw (e, update) (find_header-append k hs.mvec hdr e)
  | inr (it, e) ↦ elim (Bool-cases (same_type (value_type it.value) (value_type hdr.value))) [
    | inl same ↦
        unfold update in rw (e, update, same) (find_header-replace_header k hs.mvec hdr it e)
    | inr other ↦ unfold update in rw (e, update, other)
  ]
]

-- The value returned tells the three cases apart: the key is new and the header comes last; the key
-- has a header of the same type, whose place is taken, so that no header is added; or the key has a
-- header of another type or of none, and nothing changes.
pub update_cases :
    (pf : Platform) (hdr : FitsHeader) (hs : FitsHeaders)
    → ((find_header hdr.key hs.mvec ≡ none)
        × ((update pf hdr hs).1 ≡ pos 1)
        × ((update pf hdr hs).0.mvec ≡ hs.mvec ++ hdr ∷ []))
      ⊎ ((it : FitsHeader) × (find_header hdr.key hs.mvec ≡ some it)
          × (same_type (value_type it.value) (value_type hdr.value) ≡ true)
          × ((update pf hdr hs).1 ≡ pos 0)
          × (length (update pf hdr hs).0.mvec ≡ length hs.mvec))
      ⊎ ((it : FitsHeader) × (find_header hdr.key hs.mvec ≡ some it)
          × (same_type (value_type it.value) (value_type hdr.value) ≡ false)
          × (update pf hdr hs ≡ (hs, negsuc 0)))
update_cases pf hdr hs = elim (Option-cases (find_header hdr.key hs.mvec)) [
  | inl e ↦ inl (e, unfold update in rw (e, update), unfold update push_back in rw (e, update))
  | inr (it, e) ↦ elim (Bool-cases (same_type (value_type it.value) (value_type hdr.value))) [
    | inl same ↦ inr (
        inl (
          it,
          e,
          same,
          unfold update in rw (e, update, same),
          unfold update in rw (e, update, same) (length-replace_header hdr hs.mvec),
        ))
    | inr other ↦ inr (inr (it, e, other, unfold update in rw (e, update, other)))
  ]
]

same_type-eq : (a b : ValueType) → same_type a b ≡ true → a ≡ b
same_type-eq a b h = ground arith

-- No update changes the type of the value under a key that is there.
pub update-value_type :
    (pf : Platform) (k : Bytes) (hdr h : FitsHeader) (hs : FitsHeaders)
    → find_header k hs.mvec ≡ some h
    → (h' : FitsHeader) × (find_header k (update pf hdr hs).0.mvec ≡ some h')
      × (value_type h'.value ≡ value_type h.value)
update-value_type pf k hdr h hs e = elim (update_cases pf hdr hs) [
  | inl (new, code, _) ↦
      (h, ground (arith, find_header-update pf k hdr hs, str_eq_iff hdr.key k), refl)
  | inr (inl (it, old, same, code, _)) ↦ elim (Bool-cases (str_eq hdr.key k)) [
    | inl eq ↦ (
      hdr,
      rw (find_header-update, code, eq),
      ground (
        arith,
        same_type-eq (value_type it.value) (value_type hdr.value),
        (str_eq_iff hdr.key k).0 eq,
      ),
    )
    | inr ne ↦ (h, rw (find_header-update, code, ne) e, refl)
  ]
  | inr (inr (it, old, other, same)) ↦ (h, rw same e, refl)
]

-- Every key stands once.
abbrev pub IsDistinct : List FitsHeader → Type 0
IsDistinct [] = Unit {0}
IsDistinct (h ∷ hs) = (find_header h.key hs ≡ none) × IsDistinct hs

append-IsDistinct :
    (hs : List FitsHeader) (hdr : FitsHeader)
    → find_header hdr.key hs ≡ none
    → IsDistinct hs
    → IsDistinct (hs ++ hdr ∷ [])
unfolding find_header
append-IsDistinct [] hdr e d = (refl, tt)
append-IsDistinct (x ∷ hs) hdr e d = (
  ground
      (arith, find_header-append x.key hs hdr, str_eq_iff x.key hdr.key, str_eq_iff hdr.key x.key),
  append-IsDistinct hs hdr (ground arith) d.1,
)

replace_header-IsDistinct :
    (hs : List FitsHeader) (hdr it : FitsHeader)
    → find_header hdr.key hs ≡ some it
    → IsDistinct hs
    → IsDistinct (replace_header hdr hs)
unfolding find_header replace_header
replace_header-IsDistinct [] hdr it e d = tt
replace_header-IsDistinct (x ∷ hs) hdr it e d = elim (Bool-cases (str_eq x.key hdr.key)) [
  | inl eq ↦ rw eq (ground (arith, (str_eq_iff x.key hdr.key).0 eq), d.1)
  | inr ne ↦ rw ne (
    ground (
      arith,
      find_header-replace_header x.key hs hdr it,
      str_eq_iff hdr.key x.key,
      str_eq_iff x.key hdr.key,
    ),
    replace_header-IsDistinct hs hdr it (ground arith) d.1,
  )
]

-- An update keeps the keys distinct.
pub update-IsDistinct :
    (pf : Platform) (hdr : FitsHeader) (hs : FitsHeaders)
    → IsDistinct hs.mvec
    → IsDistinct (update pf hdr hs).0.mvec
update-IsDistinct pf hdr hs d = elim (Option-cases (find_header hdr.key hs.mvec)) [
  | inl e ↦ unfold update push_back in rw (e, update) (append-IsDistinct hs.mvec hdr e d)
  | inr (it, e) ↦ elim (Bool-cases (same_type (value_type it.value) (value_type hdr.value))) [
    | inl same ↦
        unfold update in rw (e, update, same) (replace_header-IsDistinct hs.mvec hdr it e d)
    | inr other ↦ unfold update in rw (e, update, other) d
  ]
]
