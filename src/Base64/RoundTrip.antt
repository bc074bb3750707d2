-- ===== src/Base64/RoundTrip.antt =====
-- Decoding what src/cbase64.cpp encodes.
use Prim.Native.Nat.{bit_and}
use andor2k.Base.{
  ◌-◌, ◌==◌, if◌then◌else◌, ℕ, ◌+◌, ◌*◌, ◌/◌, ◌%◌, ◌<◌, ◌≡◌, refl, [], ◌∷◌, arith, length, All,
}
use andor2k.Base.Text.{Bytes}
use andor2k.Base64.Bits.{pr2six-basis_64, and_63, and_3, and_15, high_4, high_2, or_4, or_16, or_64}
use andor2k.Base64.{
  decoded_size, missing_codes, missing_codes, decoded_size, base64decode, base64encode, basis_64,
  pr2six, code_part, code_1, code_2, code_3, code_4, encode_bytes, decode_codes, first_byte,
  second_byte, third_byte,
}

-- The value of each character of a group.
pr2six-code_1 : (x : ℕ) → x < 256 → pr2six (code_1 x) ≡ x / 4
unfolding code_1
pr2six-code_1 x h = omega (arith, pr2six-basis_64 (bit_and (x / 4) 0x3f), and_63 (x / 4))

pr2six-low_2 : (x : ℕ) → x < 256 → pr2six (basis_64 (bit_and x 0x3 * 16)) ≡ x % 4 * 16
pr2six-low_2 x h = omega (arith, pr2six-basis_64 (bit_and x 0x3 * 16), and_3 x)

pr2six-low_4 : (y : ℕ) → y < 256 → pr2six (basis_64 (bit_and y 0xf * 4)) ≡ y % 16 * 4
pr2six-low_4 y h = omega (arith, pr2six-basis_64 (bit_and y 0xf * 4), and_15 y)

pr2six-code_2 : (x y : ℕ) → x < 256 → y < 256 → pr2six (code_2 x y) ≡ x % 4 * 16 + y / 16
unfolding code_2
pr2six-code_2 x y hx hy =
    rw (and_3 x hx, high_4 y hy, or_16 (x % 4) (y / 16) (omega arith) (omega arith))
      (pr2six-basis_64 _ (omega arith))

pr2six-code_3 : (y z : ℕ) → y < 256 → z < 256 → pr2six (code_3 y z) ≡ y % 16 * 4 + z / 64
unfolding code_3
pr2six-code_3 y z hy hz =
    rw (and_15 y hy, high_2 z hz, or_4 (y % 16) (z / 64) (omega arith) (omega arith))
      (pr2six-basis_64 _ (omega arith))

pr2six-code_4 : (z : ℕ) → z < 256 → pr2six (code_4 z) ≡ z % 64
unfolding code_4
pr2six-code_4 z h = rw (and_63 z h) (pr2six-basis_64 _ (omega arith))

-- The bytes that characters of these values stand for.
first_byte_lem :
    (x r a b : ℕ)
    → x < 256
    → r < 16
    → pr2six a ≡ x / 4
    → pr2six b ≡ x % 4 * 16 + r
    → first_byte a b ≡ x
unfolding first_byte
first_byte_lem x r a b hx hr ha hb =
    rw (ha, hb) (omega (arith, or_4 (x / 4) ((x % 4 * 16 + r) / 16)))

second_byte_lem :
    (k y r b c : ℕ)
    → k < 4
    → y < 256
    → r < 4
    → pr2six b ≡ k * 16 + y / 16
    → pr2six c ≡ y % 16 * 4 + r
    → second_byte b c ≡ y
unfolding second_byte
second_byte_lem k y r b c hk hy hr hb hc =
    rw (hb, hc) (omega (arith, or_16 (k * 16 + y / 16) ((y % 16 * 4 + r) / 4)))

third_byte_lem :
    (k z c d : ℕ)
    → k < 16
    → z < 256
    → pr2six c ≡ k * 4 + z / 64
    → pr2six d ≡ z % 64
    → third_byte c d ≡ z
unfolding third_byte
third_byte_lem k z c d hk hz hc hd = rw (hc, hd) (omega (arith, or_64 (k * 4 + z / 64) (z % 64)))

abbrev IsByte : ℕ → Type 0
IsByte b = b < 256

-- The text without its padding.
pub unpadded : Bytes → Bytes
unpadded [] = []
unpadded (x ∷ []) = code_1 x ∷ basis_64 (bit_and x 0x3 * 16) ∷ []
unpadded (x ∷ y ∷ []) = code_1 x ∷ code_2 x y ∷ basis_64 (bit_and y 0xf * 4) ∷ []
unpadded (x ∷ y ∷ z ∷ s) = code_1 x ∷ code_2 x y ∷ code_3 y z ∷ code_4 z ∷ unpadded s

code_part-code : (c : ℕ) (s : Bytes) → pr2six c < 64 → code_part (c ∷ s) ≡ c ∷ code_part s
unfolding code_part
code_part-code c s h = ground arith

-- `=` is no code.
code_part-pad : (s : Bytes) → code_part (b'=' ∷ s) ≡ []
unfolding code_part pr2six
code_part-pad s = refl

code_part-group_1 :
    (x : ℕ) (s : Bytes) → x < 256 → code_part (code_1 x ∷ s) ≡ code_1 x ∷ code_part s
code_part-group_1 x s h = code_part-code _ s (omega (arith, pr2six-code_1 x h))

code_part-group_2 :
    (x y : ℕ) (s : Bytes)
    → x < 256
    → y < 256
    → code_part (code_1 x ∷ code_2 x y ∷ s) ≡ code_1 x ∷ code_2 x y ∷ code_part s
code_part-group_2 x y s hx hy = rw (
  code_part-group_1 x _ hx,
  code_part-code (code_2 x y) s (omega (arith, pr2six-code_2 x y hx hy)),
)

pub code_part-encode_bytes : (s : Bytes) → All IsByte s → code_part (encode_bytes s) ≡ unpadded s
unfolding encode_bytes unpadded
code_part-encode_bytes [] h = unfold code_part in refl
code_part-encode_bytes (x ∷ []) h = rw (
  code_part-group_1 x _ h.0,
  code_part-code (basis_64 (bit_and x 0x3 * 16)) _ (omega (arith, pr2six-low_2 x h.0)),
  code_part-pad _,
)
code_part-encode_bytes (x ∷ y ∷ []) h = rw (
  code_part-group_2 x y _ h.0 h.1.0,
  code_part-code (basis_64 (bit_and y 0xf * 4)) _ (omega (arith, pr2six-low_4 y h.1.0)),
  code_part-pad _,
)
code_part-encode_bytes (x ∷ y ∷ z ∷ s) (hx, (hy, (hz, h))) = rw (
  code_part-group_2 x y _ hx hy,
  code_part-code (code_3 y z) _ (omega (arith, pr2six-code_3 y z hy hz)),
  code_part-code (code_4 z) _ (omega (arith, pr2six-code_4 z hz)),
  code_part-encode_bytes s h,
)

pub decode_codes-unpadded : (s : Bytes) → All IsByte s → decode_codes (unpadded s) ≡ s
unfolding decode_codes unpadded
decode_codes-unpadded [] h = refl
decode_codes-unpadded (x ∷ []) (hx, _) = rw (
    first_byte_lem x 0 (code_1 x) (basis_64 (bit_and x 0x3 * 16)) hx (omega arith)
      (pr2six-code_1 x hx) (omega (arith, pr2six-low_2 x hx)))
decode_codes-unpadded (x ∷ y ∷ []) (hx, (hy, _)) = rw (
  first_byte_lem x (y / 16) (code_1 x) (code_2 x y) hx (omega arith) (pr2six-code_1 x hx)
      (pr2six-code_2 x y hx hy),
  second_byte_lem (x % 4) y 0 (code_2 x y) (basis_64 (bit_and y 0xf * 4)) (omega arith) hy
      (omega arith) (pr2six-code_2 x y hx hy) (omega (arith, pr2six-low_4 y hy)),
)
decode_codes-unpadded (x ∷ y ∷ z ∷ s) (hx, (hy, (hz, h))) = rw (
  first_byte_lem x (y / 16) (code_1 x) (code_2 x y) hx (omega arith) (pr2six-code_1 x hx)
      (pr2six-code_2 x y hx hy),
  second_byte_lem (x % 4) y (z / 64) (code_2 x y) (code_3 y z) (omega arith) hy (omega arith)
      (pr2six-code_2 x y hx hy) (pr2six-code_3 y z hy hz),
  third_byte_lem (y % 16) z (code_3 y z) (code_4 z) (omega arith) hz (pr2six-code_3 y z hy hz)
      (pr2six-code_4 z hz),
  decode_codes-unpadded s h,
)

-- How many codes a text of `n` bytes has.
unfoldable pub codes_of : ℕ → ℕ
codes_of n = n / 3 * 4 + (if n % 3 == 0 then 0 else n % 3 + 1)

pub length-unpadded : (s : Bytes) → length (unpadded s) ≡ codes_of (length s)
unfolding unpadded codes_of
length-unpadded [] = refl
length-unpadded (x ∷ []) = refl
length-unpadded (x ∷ y ∷ []) = refl
length-unpadded (x ∷ y ∷ z ∷ s) = ground (arith, length-unpadded s)

-- The count that the decoder computes from the number of codes is the number of bytes.
pub decoded_size-codes_of : (n : ℕ) → decoded_size (codes_of n) - missing_codes (codes_of n) ≡ n
unfolding decoded_size missing_codes codes_of
decoded_size-codes_of n = ground arith

-- Decoding the encoding of any bytes gives the bytes back, and their number as the value returned.
pub decode-encode : (s : Bytes) → All IsByte s → base64decode (base64encode s).0 ≡ (s, length s)
unfolding base64decode base64encode
decode-encode s h =
    let e = code_part-encode_bytes s h in
    rw (e, decode_codes-unpadded s h, length-unpadded s, decoded_size-codes_of (length s))
