-- ===== src/Base64/Lengths.antt =====
-- The sizes that src/cbase64.cpp announces, and those of what it writes.
use andor2k.Base.{
  zero, suc, suc, ◌↔◌, ℕ, ◌+◌, ◌-◌, ◌*◌, ◌/◌, ◌%◌, ◌≤◌, ◌≡◌, refl, [], ◌∷◌, arith, length,
}
use andor2k.Base.Text.{Bytes}
use andor2k.Base64.{
  base64decode, base64encode, base64decode_len, base64encode_len, encode_bytes, decode_codes,
  decoded_size, missing_codes, code_part,
}

missing_codes-suc : (m : ℕ) → missing_codes (suc m) ≡ 3 - m % 4
unfolding missing_codes
missing_codes-suc m = ground arith

-- Four codes more are three bytes more.
decoded_group :
    (n : ℕ) → decoded_size (n + 4) - missing_codes (n + 4) ≡ decoded_size n - missing_codes n + 3
unfolding decoded_size
decoded_group zero = unfold missing_codes in refl
decoded_group (suc m) =
    let e : suc m + 4 ≡ suc (m + 4) = omega arith in
    rw (e, missing_codes-suc, missing_codes-suc) (omega arith)

length-decode_codes :
    (s : Bytes) → length (decode_codes s) ≡ decoded_size (length s) - missing_codes (length s)
unfolding decode_codes
length-decode_codes [] = unfold decoded_size missing_codes in refl
length-decode_codes (a ∷ []) = unfold decoded_size missing_codes in refl
length-decode_codes (a ∷ b ∷ []) = unfold decoded_size missing_codes in refl
length-decode_codes (a ∷ b ∷ c ∷ []) = unfold decoded_size missing_codes in refl
length-decode_codes (a ∷ b ∷ c ∷ d ∷ s) =
    let e : suc (suc (suc (suc (length s)))) ≡ length s + 4 = omega arith in
    rw (e, decoded_group) (omega (arith, length-decode_codes s))

-- For every input, well formed or not, the value that the decoder returns is the number of bytes
-- that it writes before the null character, and a buffer of `base64decode_len` bytes holds both.
pub decode-fits :
    (coded : Bytes)
    → ((base64decode coded).1 ≡ length (base64decode coded).0)
      × (length (base64decode coded).0 + 1 ≤ base64decode_len coded)
unfolding base64decode base64decode_len
decode-fits coded = (
  omega (arith, length-decode_codes (code_part coded)),
  omega (arith, length-decode_codes (code_part coded)),
)

-- The decoder's two sizes agree exactly if the number of codes is a multiple of four.
pub full_groups_iff :
    (coded : Bytes)
    → ((base64decode coded).1 ≡ base64decode_len coded - 1) ↔ (length (code_part coded) % 4 ≡ 0)
unfolding base64decode base64decode_len decoded_size missing_codes
full_groups_iff coded = (λ h. ground arith, λ h. ground arith)

length-encode_bytes : (s : Bytes) → length (encode_bytes s) ≡ (length s + 2) / 3 * 4
unfolding encode_bytes
length-encode_bytes [] = refl
length-encode_bytes (x ∷ []) = refl
length-encode_bytes (x ∷ y ∷ []) = refl
length-encode_bytes (x ∷ y ∷ z ∷ s) = omega (arith, length-encode_bytes s)

-- The encoder writes exactly the number of characters that `base64encode_len` announces.
pub encode-fits :
    (s : Bytes)
    → ((base64encode s).1 ≡ base64encode_len (length s))
      × (length (base64encode s).0 + 1 ≡ base64encode_len (length s))
unfolding base64encode base64encode_len
encode-fits s = (omega (arith, length-encode_bytes s), omega (arith, length-encode_bytes s))
