-- ===== src/Aristarchos/Refusal.antt =====
-- Which messages decode_message of src/aristarchos.cpp decodes.
use Prim.Native.Nat.{bit_and, bit_or}
use andor2k.Base.{
  ◌*◌, ◌/◌, ◌<◌, ℕ, ◌+◌, ◌-◌, ◌%◌, ◌≡◌, ◌≢◌, refl, [], ◌∷◌, ◌++◌, Option, none, some, arith, ◌==◌,
  if◌then◌else◌, length, All,
}
use andor2k.Base.Text.{Bytes, codes, starts_with}
use andor2k.Base64.{
  basis_64, base64decode, base64decode_len, base64encode, encode_bytes, code_1, code_2, code_3,
  code_4, decoded_size,
}
use andor2k.Base64.RoundTrip.{codes_of, code_part-encode_bytes, length-unpadded, decode-encode}
use andor2k.Aristarchos.{block_start, block_end, decode_block, decode_message}

abbrev IsByte : ℕ → Type 0
IsByte b = b < 256

abbrev NotB : ℕ → Type 0
NotB c = c ≢ b'B'

block_start-append :
    (pre text : Bytes) → All NotB pre → block_start (pre ++ (codes "BF=" ++ text)) ≡ some text
unfolding block_start starts_with
block_start-append [] text h = refl
block_start-append (c ∷ pre) text h = ground (arith, h.0, block_start-append pre text h.1)

basis_64_no_end : (i : ℕ) → basis_64 i ≢ b';'
unfolding basis_64
basis_64_no_end i = λ e. ground (arith, e)

abbrev NotEnd : ℕ → Type 0
NotEnd c = c ≢ b';'

pad-NotEnd : NotEnd b'='
pad-NotEnd = λ e. omega (arith, e)

char_1 : (x : ℕ) → NotEnd (code_1 x)
unfolding code_1
char_1 x = basis_64_no_end (bit_and (x / 4) 0x3f)

char_2 : (x y : ℕ) → NotEnd (code_2 x y)
unfolding code_2
char_2 x y = basis_64_no_end (bit_or (bit_and x 0x3 * 16) (bit_and y 0xf0 / 16))

char_3 : (y z : ℕ) → NotEnd (code_3 y z)
unfolding code_3
char_3 y z = basis_64_no_end (bit_or (bit_and y 0xf * 4) (bit_and z 0xc0 / 64))

char_4 : (z : ℕ) → NotEnd (code_4 z)
unfolding code_4
char_4 z = basis_64_no_end (bit_and z 0x3f)

encode_bytes-NotEnd : (s : Bytes) → All NotEnd (encode_bytes s)
unfolding encode_bytes
encode_bytes-NotEnd [] = tt
encode_bytes-NotEnd (x ∷ []) =
    (char_1 x, (basis_64_no_end (bit_and x 0x3 * 16), (pad-NotEnd, (pad-NotEnd, tt))))
encode_bytes-NotEnd (x ∷ y ∷ []) =
    (char_1 x, (char_2 x y, (basis_64_no_end (bit_and y 0xf * 4), (pad-NotEnd, tt))))
encode_bytes-NotEnd (x ∷ y ∷ z ∷ s) =
    (char_1 x, (char_2 x y, (char_3 y z, (char_4 z, encode_bytes-NotEnd s))))

block_end-append :
    (coded post : Bytes) → All NotEnd coded → block_end (coded ++ (b';' ∷ post)) ≡ some coded
unfolding block_end
block_end-append [] post h = refl
block_end-append (c ∷ coded) post h = ground (arith, h.0, block_end-append coded post h.1)

full : (n : ℕ) → (n == decoded_size (codes_of n) + 1 - 1) ≡ (n % 3 == 0)
unfolding decoded_size codes_of
full n = ground arith

-- The block is accepted exactly if there is no padding.
decode_block-encode :
    (decompress : Bytes → Option Bytes) (s : Bytes)
    → All IsByte s
    → decode_block decompress (encode_bytes s) ≡ (if length s % 3 == 0 then decompress s else none)
unfolding decode_block base64decode_len
decode_block-encode decompress s h =
    let decoded : base64decode (encode_bytes s) ≡ (s, length s) =
      unfold base64encode in decode-encode s h in
    rw (decoded, code_part-encode_bytes s h, length-unpadded s, full (length s)) refl

-- A message with a block between "BF=" and ';', where no 'B' comes before it, whose block is the base
-- 64 encoding of the bytes s: where the number of these is a multiple of three, the result is what the
-- decompression makes of s, and otherwise the message is refused.
pub decode_message-base64encode :
    (decompress : Bytes → Option Bytes) (pre s post : Bytes)
    → All NotB pre
    → All IsByte s
    → decode_message decompress (pre ++ (codes "BF=" ++ ((base64encode s).0 ++ (b';' ∷ post))))
      ≡ (if length s % 3 == 0 then decompress s else none)
unfolding decode_message base64encode
decode_message-base64encode decompress pre s post hp hs =
    rw
      (
        block_start-append pre (encode_bytes s ++ (b';' ∷ post)) hp,
        block_end-append (encode_bytes s) post (encode_bytes-NotEnd s),
        decode_message,
      )
      (decode_block-encode decompress s hs)
