-- ===== src/Aristarchos/Overrun.antt =====
-- The arrays that decoded_str_to_header of src/aristarchos.cpp copies a card to: it tests no length.
use andor2k.Base.{ℕ, ◌≡◌, ◌&&◌, List, [], ◌∷◌, ◌++◌, leb, if◌then◌else◌}
use andor2k.Base.Text.{Bytes}
use andor2k.Headers.{FitsHeader}
use andor2k.Headers.Stored.{IsStored}
use andor2k.Aristarchos.{read_card, Parsed, overrun}

-- What is made of a card whose '/' is `n` characters behind its '='.
abbrev pub IsBoundedCard : ℕ → Bytes → List FitsHeader → (List FitsHeader → Parsed) → Type 0
IsBoundedCard n card hdrs more =
    if leb 8 n && leb n 34
    then ((hdr : FitsHeader) × IsStored hdr × (read_card card hdrs more ≡ more (hdrs ++ hdr ∷ [])))
    else read_card card hdrs more ≡ overrun
