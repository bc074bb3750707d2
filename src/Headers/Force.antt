-- ===== src/Headers/Force.antt =====
-- `FitsHeaders::force_update` and `FitsHeaders::clear` of src/fits_header.hpp beside
-- `FitsHeaders::update`.
use andor2k.Base.{◌≡◌, ◌≤◌, ◌↔◌, refl, List, [], ◌∷◌, ◌++◌, none, some, arith, Bool, false, length}
use andor2k.Base.Text.{Bytes, str_eq, str_eq_iff}
use andor2k.Params.{Platform}
use andor2k.Headers.{
  FitsHeader, FitsHeaders, HeaderValue, find_header, create_fits_header, force_update, update,
  clear, push_back, merge, merge_from, make_room,
}
use andor2k.Headers.Update.{IsDistinct, update-IsDistinct}

append-none :
    (k : Bytes) (hs : List FitsHeader) (hdr : FitsHeader)
    → find_header k (hs ++ hdr ∷ []) ≡ none
    → (find_header k hs ≡ none) × (str_eq hdr.key k ≡ false)
unfolding find_header
append-none k [] hdr e = (refl, ground arith)
append-none k (x ∷ hs) hdr e = ground (arith, append-none k hs hdr)

append-IsDistinct-new :
    (hs : List FitsHeader) (hdr : FitsHeader)
    → IsDistinct (hs ++ hdr ∷ [])
    → find_header hdr.key hs ≡ none
unfolding find_header
append-IsDistinct-new [] hdr d = refl
append-IsDistinct-new (x ∷ hs) hdr (e, d) =
    let (_, ne) = append-none x.key hs hdr e in
    let new = append-IsDistinct-new hs hdr d in
    ground (arith, str_eq_iff x.key hdr.key, str_eq_iff hdr.key x.key)

-- force_update does what update does exactly where no header has the key: on distinct keys it leaves
-- them distinct only there, and there its outcome, with the value returned, is that of update.
force_update_iff :
    (pf : Platform) (key : Bytes) (val : HeaderValue) (comment : Bytes) (hs : FitsHeaders)
    → IsDistinct hs.mvec
    → let hdr = create_fits_header key val comment in
      IsDistinct (force_update pf key val comment hs).0.mvec
      ↔ (force_update pf key val comment hs ≡ update pf hdr hs)
force_update_iff pf key val comment hs d =
    let hdr = create_fits_header key val comment in
    (
      λ distinct.
          let new : find_header hdr.key hs.mvec ≡ none =
            append-IsDistinct-new hs.mvec hdr (unfold force_update push_back in distinct) in
          unfold force_update update in rw (new, update),
      λ same. rw same (update-IsDistinct pf hdr hs d),
    )

find_header-append_old :
    (k : Bytes) (hs : List FitsHeader) (hdr h : FitsHeader)
    → find_header k hs ≡ some h
    → find_header k (hs ++ hdr ∷ []) ≡ some h
unfolding find_header
find_header-append_old k [] hdr h e = cc
find_header-append_old k (x ∷ hs) hdr h e = ground (arith, find_header-append_old k hs hdr h)

-- A key that is there keeps the header that it had, whatever force_update puts behind.
find_header-force_update :
    (pf : Platform) (key : Bytes) (val : HeaderValue) (comment k : Bytes) (hs : FitsHeaders)
    (h : FitsHeader)
    → find_header k hs.mvec ≡ some h
    → find_header k (force_update pf key val comment hs).0.mvec ≡ some h
unfolding force_update push_back
find_header-force_update pf key val comment k hs h =
    find_header-append_old k hs.mvec (create_fits_header key val comment) h

-- After clear the vector has room for as many headers as before, and a merge of as many keeps it.
merge-clear :
    (pf : Platform) (hvec : List FitsHeader) (stop : Bool) (hs : FitsHeaders)
    → length hvec ≤ hs.capacity
    → merge pf hvec stop (clear hs) ≡ merge_from pf stop hvec 0 0 (clear hs)
unfolding merge make_room clear
merge-clear pf hvec stop hs room = ground arith
