-- ===== src/Base/Decimal.antt =====
-- `sprintf("%d")` of a number that is not negative, and that `strtol` reads it back.
use andor2k.Base.{
  ◌∙◌, ℕ, zero, suc, ◌+◌, ◌*◌, ◌/◌, ◌%◌, ◌≤◌, ◌<◌, ◌^◌, ◌≡◌, refl, Bool, true, false, [], ◌∷◌, ◌++◌,
  some, arith, ltb, if◌then◌else◌, pos,
}
use andor2k.Base.Text.{
  Bytes, digits_from, strtol, strtol_sign, strtol_digits, skip_spaces, converted, is_digit,
}

-- The digits of `n` before `out`, in so many rounds at most.
pub digits_before : ℕ → ℕ → Bytes → Bytes
digits_before zero n out = out
digits_before (suc rounds) n out =
    let more = digits_before rounds (n / 10) ((b'0' + n % 10) ∷ out) in
    if ltb n 10 then (b'0' + n) ∷ out else more

-- A number has no more digits than it counts, but for 0.
unfoldable pub decimal : ℕ → Bytes
unfolding digits_before
decimal n = digits_before (suc n) n []

digits_from_digit :
    (m d : ℕ) (s : Bytes) → d < 10 → digits_from m ((b'0' + d) ∷ s) ≡ digits_from (m * 10 + d) s
unfolding digits_from
digits_from_digit m d s h = ground arith

digits_from-digits_before :
    (rounds n : ℕ) (out : Bytes)
    → n ≤ rounds
    → digits_from 0 (digits_before rounds n out) ≡ digits_from n out
unfolding digits_before
digits_from-digits_before zero n out h = let e : n ≡ 0 = omega arith in rw e refl
digits_from-digits_before (suc rounds) n out h =
    let last = (b'0' + n % 10) ∷ out in
    ground (
      arith,
      digits_from_digit 0 n out,
      digits_from_digit (n / 10) (n % 10) out,
      digits_from-digits_before rounds (n / 10) last,
    )

digits_before-append :
    (rounds n : ℕ) (out rest : Bytes)
    → digits_before rounds n out ++ rest ≡ digits_before rounds n (out ++ rest)
unfolding digits_before
digits_before-append zero n out rest = refl
digits_before-append (suc rounds) n out rest =
    ground (arith, digits_before-append rounds (n / 10) ((b'0' + n % 10) ∷ out) rest)

abbrev pub starts_digit : Bytes → Bool
starts_digit [] = false
starts_digit (c ∷ s) = is_digit c

digits_before_more :
    (rounds n : ℕ) (out : Bytes)
    → starts_digit out ≡ true
    → starts_digit (digits_before rounds n out) ≡ true
unfolding digits_before
digits_before_more zero n out h = h
digits_before_more (suc rounds) n out h =
    ground (arith, digits_before_more rounds (n / 10) ((b'0' + n % 10) ∷ out))

digits_before_digit :
    (rounds n : ℕ) (out : Bytes) → starts_digit (digits_before (suc rounds) n out) ≡ true
unfolding digits_before
digits_before_digit rounds n out =
    ground (arith, digits_before_more rounds (n / 10) ((b'0' + n % 10) ∷ out))

strtol-digits :
    (s : Bytes) → starts_digit s ≡ true → strtol s ≡ some (converted false (digits_from 0 s))
unfolding strtol skip_spaces strtol_sign strtol_digits
strtol-digits [] h = ground arith
strtol-digits (c ∷ s) h = ground arith

digits_from_stop : (n : ℕ) (s : Bytes) → starts_digit s ≡ false → digits_from n s ≡ (n, s)
unfolding digits_from
digits_from_stop n [] h = refl
digits_from_stop n (c ∷ s) h = ground arith

converted_small :
    (n : ℕ) (rest : Bytes)
    → n < 2 ^ 63
    → some (converted false (n, rest))
      ≡ some (record { value = pos n; rest = rest; out_of_range = false })
converted_small n rest fits = ground arith

-- A printed number that fits a `long` is read back, up to what follows it if that is no digit.
pub strtol-decimal :
    (n : ℕ) (rest : Bytes)
    → n < 2 ^ 63
    → starts_digit rest ≡ false
    → strtol (decimal n ++ rest)
      ≡ some (record { value = pos n; rest = rest; out_of_range = false })
unfolding decimal
strtol-decimal n rest fits stop =
    let printed = digits_before (suc n) n rest in
    let number : digits_from 0 printed ≡ (n, rest) =
      digits_from-digits_before (suc n) n rest (omega arith) ∙ digits_from_stop n rest stop in
    rw (digits_before-append (suc n) n [] rest) (
      strtol-digits printed (digits_before_digit n n rest)
      ∙ rw number (converted_small n rest fits))
