-- ===== src/Aristarchos.antt =====
-- src/aristarchos.cpp: the headers that the telescope's server sends, as a message that holds FITS
-- cards without line breaks, compressed by bzip2 and encoded in base 64. The decompression, which
-- belongs to libbz2, is an argument.
-- Memory is the list of the bytes from a pointer to the end of its array; a read beyond it, and a
-- write beyond the array that it goes to, is `overrun`.
pub mod Request
pub mod Cards
pub mod Refusal
pub mod Chunks
pub mod Overrun
mod Tests
use andor2k.Base.{
  ◌%◌, ℕ, zero, suc, ◌+◌, ◌-◌, ◌/◌, Bool, true, false, ◌||◌, List, [], ◌∷◌, ◌++◌, Option, none,
  some, ltb, leb, ◌==◌, if◌then◌else◌, length, get_or, get_elem?, take, drop, ℤ, pos, negsuc, ◌-ℤ◌,
}
use andor2k.Base.Text.{Bytes, codes, starts_with}
use andor2k.Base64.{base64decode, base64decode_len}
use andor2k.Headers.{FitsHeader, cval}

-- The fifth or the sixth character of a reply is a question mark. The buffer is cleared before it is
-- filled, so a character behind the reply is null.
pub response_has_error : Bytes → Bool
response_has_error [] = false
response_has_error (c ∷ s) = get_or (c ∷ s) 4 0 == b'?' || get_or (c ∷ s) 5 0 == b'?'

-- The text behind the first "BF=": `strstr(raw_message, "BF=") + 3`.
pub block_start : Bytes → Option Bytes
unfolding starts_with
block_start [] = none
block_start (c ∷ s) = if starts_with (codes "BF=") (c ∷ s) then some (drop 2 s) else block_start s

-- The text before the first ';'.
pub block_end : Bytes → Option Bytes
block_end [] = none
block_end (c ∷ s) =
    let more = block_end s in
    if c == b';' then some [] else elim more [ none ↦ none | some b ↦ some (c ∷ b) ]

-- The block in base 64, decoded and decompressed.
pub decode_block : (Bytes → Option Bytes) → Bytes → Option Bytes
decode_block decompress coded =
    let (plain, bts) = base64decode coded in
    if bts == base64decode_len coded - 1 then decompress plain else none

-- `none` for a null pointer; the text that is given has `ascii_len` characters.
pub decode_message : (Bytes → Option Bytes) → Bytes → Option Bytes
unfolding block_start block_end decode_block
decode_message decompress raw = elim (block_start raw) [
  | none ↦ none
  | some start ↦ elim (block_end start) [ none ↦ none | some coded ↦ decode_block decompress coded ]
]

-- One part of the copy for each `every` characters, so many at most.
pub parts : ℕ → ℕ → ℕ → Bytes → Bytes
parts zero every delim s = []
parts (suc n) every delim s = take every s ++ (delim ∷ parts n every delim (drop every s))

pub part_count : ℕ → ℕ → ℕ
part_count str_length every = str_length / every + (if str_length % every == 0 then 0 else 1)

-- `every` is not 0.
pub add_char_every : Bytes → ℕ → ℕ → Bytes
unfolding parts part_count
add_char_every source every delim = parts (part_count (length source) every) every delim source

-- The characters before the null character.
unfoldable pub c_string : Bytes → Bytes
c_string [] = []
c_string (c ∷ s) = if c == 0 then [] else c ∷ c_string s

-- What `strchr(s, '/')` finds.
pub data Found : Type 0 where
  slash : ℕ → Found
  null : Found
  outside : Found

pub find_slash : Bytes → Found
find_slash [] = outside
find_slash (c ∷ s) =
    let more = find_slash s in
    if c == b'/'
    then slash 0
    else if c == 0
    then null
    else elim more [ slash n ↦ slash (suc n) | null ↦ null | outside ↦ outside ]

-- The status 0 or -1, with the headers that were read before it.
pub data Parsed : Type 0 where
  resolved : List FitsHeader → Parsed
  unresolved : List FitsHeader → Parsed
  overrun : Parsed

abbrev pub header_size : ℕ
header_size = 80

-- `strncpy` into an array that is cleared: the characters before the null character, n at most.
pub strncpy : ℕ → Bytes → Option Bytes
strncpy zero s = some []
strncpy (suc n) [] = none
strncpy (suc n) (c ∷ s) =
    let more = strncpy n s in
    if c == 0 then some [] else elim more [ none ↦ none | some t ↦ some (c ∷ t) ]

-- `strncpy(array, s, count)` where the array has `size` characters and is cleared, and the text that it
-- then holds. The count is converted to `size_t`, so a negative one is far beyond any array. `none`
-- where characters are written behind the array, or none is left for the null character at its end, so
-- that what reads the text goes on behind it.
pub strncpy_into : ℕ → ℤ → Bytes → Option Bytes
unfolding strncpy
strncpy_into size (pos count) s = if ltb count size then strncpy count s else none
strncpy_into size (negsuc count) s = none

pub card_header : Bytes → Bytes → Bytes → FitsHeader
unfolding c_string
card_header card value comment = record {
  key = c_string (take 8 card);
  comment = comment;
  value = cval value;
}

-- A card that has a '='; `more` is what the loop does after it. The '/' is `n` characters behind the
-- '=': the value is copied from the character 11 up to it, and the comment from behind it to the end of
-- the card, with no test of their lengths.
pub read_card : Bytes → List FitsHeader → (List FitsHeader → Parsed) → Parsed
unfolding card_header find_slash strncpy_into
read_card card hdrs more = elim (find_slash (drop 8 card)) [
  | outside ↦ overrun
  | null ↦ unresolved hdrs
  | slash n ↦ elim (strncpy_into 32 (pos (8 + n) -ℤ pos 11) (drop 11 card)) [
    | none ↦ overrun
    | some value ↦
        elim (strncpy_into 64 (pos header_size -ℤ pos (8 + n) -ℤ pos 1) (drop (9 + n) card)) [
          | none ↦ overrun
          | some comment ↦ more (hdrs ++ card_header card value comment ∷ [])
        ]
  ]
]

-- The loop from the position `at`, for so many rounds at most: a round leaves eighty characters
-- behind, so the memory has an end before the rounds do.
pub read_cards : ℕ → ℕ → ℕ → Bytes → List FitsHeader → Parsed
unfolding read_card
read_cards zero at msg_len memory hdrs = overrun
read_cards (suc rounds) at msg_len [] hdrs = overrun
read_cards (suc rounds) at msg_len (c ∷ memory) hdrs =
    let more = read_cards rounds (at + header_size) msg_len (drop header_size (c ∷ memory)) in
    if c == 0
    then resolved hdrs
    else if ltb msg_len at
    then resolved hdrs
    else elim (get_elem? memory 7) [
      | none ↦ overrun
      | some d ↦ if d == b'=' then read_card (c ∷ memory) hdrs more else more hdrs
    ]

pub decoded_str_to_header : Bytes → ℕ → Parsed
unfolding read_cards
decoded_str_to_header memory msg_len =
    read_cards (suc (length memory / header_size)) 0 msg_len memory []
