-- ===== src/Base/Text.antt =====
-- C strings and the library functions of the source on them: strncmp, strtok, strlen, strtol.
-- A string is the list of its characters up to the null character, which is not in the list.
use Prim.Native.Char.{code}
use Prim.Native.String.{String}
use andor2k.Base.{
  refl, arith, arith, ◌↔◌, ◌≡◌, ℕ, ◌+◌, ◌-◌, ◌*◌, ◌^◌, Bool, true, false, ◌&&◌, ◌||◌, List, [], ◌∷◌,
  ◌++◌, Option, none, some, ltb, leb, ◌==◌, if◌then◌else◌, ℤ, pos, neg_ℕ,
}

abbrev pub Bytes : Type 0
Bytes = List ℕ

-- The characters of a literal, which is ASCII.
abbrev pub codes : String → Bytes
codes String.[] = []
codes (String.◌∷◌ c s) = code c ∷ codes s

-- `!strncmp(s, prefix, n)`, where n is the length of the literal `prefix`.
unfoldable pub starts_with : Bytes → Bytes → Bool
starts_with [] s = true
starts_with (c ∷ prefix) [] = false
starts_with (c ∷ prefix) (d ∷ s) = c == d && starts_with prefix s

-- `!strcmp(s, t)`.
unfoldable pub str_eq : Bytes → Bytes → Bool
str_eq [] [] = true
str_eq [] (d ∷ t) = false
str_eq (c ∷ s) [] = false
str_eq (c ∷ s) (d ∷ t) = c == d && str_eq s t

-- A token that is complete, put before those that follow it. An empty one is none.
abbrev pub flush : Bytes → List Bytes → List Bytes
flush [] ts = ts
flush (c ∷ cur) ts = (c ∷ cur) ∷ ts

-- The calls `strtok(s, " ")`, `strtok(nullptr, " ")`, … until a null pointer, as the list of tokens.
-- `cur` is the token that is being read.
unfoldable pub tokens_from : Bytes → Bytes → List Bytes
tokens_from cur [] = flush cur []
tokens_from cur (c ∷ s) = elim (c == b' ') [
  | true ↦ flush cur (tokens_from [] s)
  | false ↦ tokens_from (cur ++ c ∷ []) s
]

unfoldable pub tokens : Bytes → List Bytes
unfolding tokens_from
tokens s = tokens_from [] s

abbrev pub is_space : ℕ → Bool
is_space c = c == 32 || leb 9 c && leb c 13

abbrev pub is_digit : ℕ → Bool
is_digit c = leb b'0' c && leb c b'9'

unfoldable pub skip_spaces : Bytes → Bytes
skip_spaces [] = []
skip_spaces (c ∷ s) = if is_space c then skip_spaces s else c ∷ s

-- The number that the leading digits spell behind `n`, and what follows them.
unfoldable pub digits_from : ℕ → Bytes → ℕ × Bytes
digits_from n [] = (n, [])
digits_from n (c ∷ s) = elim (is_digit c) [
  | true ↦ digits_from (n * 10 + (c - b'0')) s
  | false ↦ (n, c ∷ s)
]

-- What `strtol(s, &end, 10)` gives: the value, the text at `end`, and whether errno is ERANGE.
pub record Conversion : Type 0 where
  pub value : ℤ
  pub rest : Bytes
  pub out_of_range : Bool

-- A `long` has 64 bits; a value that does not fit is the nearest that does.
abbrev pub clamp_long : Bool → ℕ → ℤ
clamp_long true n = if ltb (2 ^ 63) n then neg_ℕ (2 ^ 63) else neg_ℕ n
clamp_long false n = if ltb (2 ^ 63 - 1) n then pos (2 ^ 63 - 1) else pos n

abbrev pub converted : Bool → ℕ × Bytes → Conversion
converted negative (n, r) = record {
  value = clamp_long negative n;
  rest = r;
  out_of_range = if negative then ltb (2 ^ 63) n else ltb (2 ^ 63 - 1) n;
}

-- The digits behind the sign; `none` where there is none.
unfoldable pub strtol_digits : Bool → Bytes → Option Conversion
unfolding digits_from
strtol_digits negative [] = none
strtol_digits negative (c ∷ s) =
    if is_digit c then some (converted negative (digits_from 0 (c ∷ s))) else none

unfoldable pub strtol_sign : Bytes → Option Conversion
unfolding strtol_digits
strtol_sign [] = none
strtol_sign (c ∷ s) =
    if c == b'-'
    then strtol_digits true s
    else if c == b'+'
    then strtol_digits false s
    else strtol_digits false (c ∷ s)

-- `strtol(s, &end, 10)`; `none` where no conversion is made, that is `end == s`, and the value is 0.
unfoldable pub strtol : Bytes → Option Conversion
unfolding skip_spaces strtol_sign
strtol s = strtol_sign (skip_spaces s)

pub str_eq_iff : (s t : Bytes) → (str_eq s t ≡ true) ↔ (s ≡ t)
unfolding str_eq
str_eq_iff [] [] = (λ h. refl, λ h. refl)
str_eq_iff [] (d ∷ t) = (λ h. cc, λ h. cc)
str_eq_iff (c ∷ s) [] = (λ h. cc, λ h. cc)
str_eq_iff (c ∷ s) (d ∷ t) =
    (λ h. ground (arith, str_eq_iff s t), λ h. ground (arith, str_eq_iff s t))
