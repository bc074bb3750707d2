-- ===== src/Setup/Accepted.antt =====
-- A command that src/resolve_image_parameters.cpp accepts, in the test of the size of the image in
-- src/set_acquisition.cpp.
use native.Mathlib.Nat.{div-eq-sub-div, div-le_self}
use andor2k.Base.{ℕ, zero, suc, ◌/◌, ◌≤◌, ◌≡◌, false, arith, ℤ, pos, negsuc, ◌+ℤ◌, ◌-ℤ◌, ◌/ℤ◌, ◌≤ℤ◌}
use andor2k.Base.Text.{Bytes}
use andor2k.Params.{Platform, AndorParameters}
use andor2k.ImageCommand.{resolve_image_parameters}
use andor2k.ImageCommand.Validity.{resolve_image_parameters-IsValid}
use andor2k.Setup.{outside, image_size}

quotient_inside : (n k : ℕ) → suc k ≤ n → n ≤ 2048 → outside (pos (n / suc k)) ≡ false
quotient_inside n k le top =
    let low = div-eq-sub-div {m = suc k} {n = n} (omega arith) le in
    ground (arith, low, div-le_self n (suc k), top)

width_inside : (w b : ℤ) → pos 1 ≤ℤ b → b ≤ℤ w → w ≤ℤ pos 2048 → outside (w /ℤ b) ≡ false
width_inside (pos n) (pos zero) one le top = absurd (omega (arith, one))
width_inside (pos n) (pos (suc k)) one le top =
    quotient_inside n k (omega (arith, le)) (omega (arith, top))
width_inside (pos n) (negsuc k) one le top = absurd (omega (arith, one))
width_inside (negsuc n) (pos b) one le top = absurd (omega (arith, one, le))
width_inside (negsuc n) (negsuc k) one le top = absurd (omega (arith, one))

region_top : (s e : ℤ) → pos 1 ≤ℤ s → e ≤ℤ pos 2048 → (e -ℤ s +ℤ pos 1) ≤ℤ pos 2048
region_top s e low high = ground (arith, low, high)

-- Where the parser accepts a command, and the binning of the parameters is positive and no larger than
-- the region in each direction, both sides of the image are in [1, 2048], so that the acquisition's
-- test of them is passed.
pub outside-image_size :
    (pf : Platform) (command : Bytes) (p q : AndorParameters)
    → resolve_image_parameters pf command p ≡ (0, q)
    → (pos 1 ≤ℤ q.image_hbin) × (q.image_hbin ≤ℤ (q.image_hend -ℤ q.image_hstart +ℤ pos 1))
    → (pos 1 ≤ℤ q.image_vbin) × (q.image_vbin ≤ℤ (q.image_vend -ℤ q.image_vstart +ℤ pos 1))
    → (outside (image_size q).0 ≡ false) × (outside (image_size q).1 ≡ false)
outside-image_size pf command p q accepted (hpos, hfits) (vpos, vfits) =
    let valid = resolve_image_parameters-IsValid pf command p q accepted in
    (
      width_inside _ q.image_hbin hpos hfits
          (region_top q.image_hstart q.image_hend valid.hstart.0 valid.hend.1),
      width_inside _ q.image_vbin vpos vfits
          (region_top q.image_vstart q.image_vend valid.vstart.0 valid.vend.1),
    )
