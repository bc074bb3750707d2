-- ===== src/Base64.antt =====
-- src/cbase64.cpp: base 64 as the observatory's server writes it. Bytes are numbers below 256, and a
-- `char` that C reads as negative is the byte of the same bits, since each use masks it. A buffer of
-- C is the list of the bytes before the null character that the code writes last.
pub mod RoundTrip
pub mod Lengths
mod Bits
mod Tests
use Prim.Native.Nat.{bit_and, bit_or}
use andor2k.Base.{
  ◌&&◌, ℕ, ◌+◌, ◌-◌, ◌*◌, ◌/◌, ◌%◌, ◌≤◌, Bool, true, false, List, [], ◌∷◌, ltb, leb, ◌==◌,
  if◌then◌else◌, length,
}
use andor2k.Base.Text.{Bytes}

-- basis_64[i].
unfoldable pub basis_64 : ℕ → ℕ
basis_64 i =
    if ltb i 26
    then b'A' + i
    else if ltb i 52
    then b'a' + (i - 26)
    else if ltb i 62
    then b'0' + (i - 52)
    else if i == 62
    then b'+'
    else b'/'

-- pr2six[c].
pub pr2six : ℕ → ℕ
pr2six c =
    if c == b'+'
    then 62
    else if c == b'/'
    then 63
    else if leb b'0' c && leb c b'9'
    then c - b'0' + 52
    else if leb b'A' c && leb c b'Z'
    then c - b'A'
    else if leb b'a' c && leb c b'z'
    then c - b'a' + 26
    else 64

-- The characters before the first that is not in the alphabet: `nprbytes` is their number.
pub code_part : Bytes → Bytes
unfolding pr2six
code_part [] = []
code_part (c ∷ s) = if leb (pr2six c) 63 then c ∷ code_part s else []

-- ((nprbytes + 3) / 4) * 3
unfoldable pub decoded_size : ℕ → ℕ
decoded_size n = (n + 3) / 4 * 3

unfoldable pub base64decode_len : Bytes → ℕ
unfolding code_part decoded_size
base64decode_len coded = decoded_size (length (code_part coded)) + 1

-- The three bytes that four codes stand for; `<< k` and `>> k` are `* 2 ^ k` and `/ 2 ^ k`.
first_byte : ℕ → ℕ → ℕ
first_byte a b = bit_or (pr2six a * 4) (pr2six b / 16) % 256

second_byte : ℕ → ℕ → ℕ
second_byte b c = bit_or (pr2six b * 16) (pr2six c / 4) % 256

third_byte : ℕ → ℕ → ℕ
third_byte c d = bit_or (pr2six c * 64) (pr2six d) % 256

-- The loop over groups of four, while more than four codes are left, and the last group.
pub decode_codes : Bytes → Bytes
unfolding first_byte second_byte third_byte
decode_codes [] = []
decode_codes (a ∷ []) = []
decode_codes (a ∷ b ∷ []) = first_byte a b ∷ []
decode_codes (a ∷ b ∷ c ∷ []) = first_byte a b ∷ second_byte b c ∷ []
decode_codes (a ∷ b ∷ c ∷ d ∷ s) =
    first_byte a b ∷ second_byte b c ∷ third_byte c d ∷ decode_codes s

-- `(4 - nprbytes) & 3` of the rest of `nprbytes`: the loop takes four from it while it exceeds four.
pub missing_codes : ℕ → ℕ
missing_codes n = if n == 0 then 0 else (4 - ((n - 1) % 4 + 1)) % 4

-- What is written to `bufplain`, without the last null character, and the value returned.
unfoldable pub base64decode : Bytes → Bytes × ℕ
unfolding code_part decode_codes decoded_size missing_codes
base64decode coded =
    let n = length (code_part coded) in
    (decode_codes (code_part coded), decoded_size n - missing_codes n)

pub base64encode_len : ℕ → ℕ
base64encode_len len = (len + 2) / 3 * 4 + 1

-- The four characters of a group; 0 stands for a byte that is not there.
unfoldable pub code_1 : ℕ → ℕ
code_1 x = basis_64 (bit_and (x / 4) 0x3f)

unfoldable pub code_2 : ℕ → ℕ → ℕ
code_2 x y = basis_64 (bit_or (bit_and x 0x3 * 16) (bit_and y 0xf0 / 16))

unfoldable pub code_3 : ℕ → ℕ → ℕ
code_3 y z = basis_64 (bit_or (bit_and y 0xf * 4) (bit_and z 0xc0 / 64))

unfoldable pub code_4 : ℕ → ℕ
code_4 z = basis_64 (bit_and z 0x3f)

-- The text without the last null character.
unfoldable pub encode_bytes : Bytes → Bytes
unfolding code_1 code_2 code_3 code_4 basis_64
encode_bytes [] = []
encode_bytes (x ∷ []) = code_1 x ∷ basis_64 (bit_and x 0x3 * 16) ∷ b'=' ∷ b'=' ∷ []
encode_bytes (x ∷ y ∷ []) = code_1 x ∷ code_2 x y ∷ basis_64 (bit_and y 0xf * 4) ∷ b'=' ∷ []
encode_bytes (x ∷ y ∷ z ∷ s) = code_1 x ∷ code_2 x y ∷ code_3 y z ∷ code_4 z ∷ encode_bytes s

-- What is written to `encoded`, and the value returned, which counts the null character.
unfoldable pub base64encode : Bytes → Bytes × ℕ
unfolding encode_bytes
base64encode s = (encode_bytes s, length (encode_bytes s) + 1)
