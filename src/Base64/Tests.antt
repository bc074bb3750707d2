-- ===== src/Base64/Tests.antt =====
-- Runs of the coder, and the theorems at concrete inputs.
use andor2k.Base.{◌≡◌, refl, [], ◌∷◌, arith}
use andor2k.Base.Text.{codes}
use andor2k.Base64.{base64decode, base64encode}
use andor2k.Base64.RoundTrip

man : base64encode (codes "Man!") ≡ (codes "TWFuIQ==", 9)
unfolding base64encode
man = refl

man_back : base64decode (codes "TWFuIQ==") ≡ (codes "Man!", 4)
unfolding base64decode
man_back = refl

decode-encode_example :
    base64decode (base64encode (1 ∷ 200 ∷ 255 ∷ 0 ∷ [])).0 ≡ (1 ∷ 200 ∷ 255 ∷ 0 ∷ [], 4)
decode-encode_example = RoundTrip.decode-encode (1 ∷ 200 ∷ 255 ∷ 0 ∷ []) (omega arith)
