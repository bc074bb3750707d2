-- ===== src/Aristarchos/Cards.antt =====
-- The cards of src/aristarchos.cpp, from a description of their format: a key of 8 characters, "=" and
-- two more characters, a value, '/', and a comment that fills the 80 characters.
use andor2k.Base.{
  get_elem?, ℕ, zero, suc, ◌+◌, ◌-◌, ◌*◌, ◌/◌, ◌≤◌, ◌<◌, ◌≡◌, ◌≢◌, ◌∙◌, refl, sym, ap, true, List,
  [], ◌∷◌, ◌++◌, some, arith, append_assoc, append-nil, length, length-append, drop-append,
  drop-drop, take-append, get_elem?-append, drop, All, take, ltb, pos, ◌-ℤ◌,
}
use andor2k.Base.Text.{Bytes, codes}
use andor2k.Headers.{FitsHeader, cval}
use andor2k.Aristarchos.{
  c_string, strncpy, strncpy_into, find_slash, slash, card_header, read_card, read_cards,
  decoded_str_to_header, Parsed, resolved, header_size,
}

pub record Card : Type 0 where
  pub key : Bytes
  pub value : Bytes
  pub comment : Bytes

abbrev NotNull : ℕ → Type 0
NotNull c = c ≢ 0

abbrev IsValueChar : ℕ → Type 0
IsValueChar c = (c ≢ 0) × (c ≢ b'/')

-- The value and the comment fit the arrays of a header.
pub record IsCard (c : Card) : Type 0 where
  pub key_length : length c.key ≡ 8
  pub value_length : (5 ≤ length c.value) × (length c.value ≤ 31)
  pub card_length : 12 + length c.value + length c.comment ≡ 80
  pub key_chars : All NotNull c.key
  pub value_chars : All IsValueChar c.value
  pub comment_chars : All NotNull c.comment

-- What stands behind the key.
abbrev field : Card → Bytes → Bytes
field c rest = codes "=  " ++ (c.value ++ (b'/' ∷ (c.comment ++ rest)))

-- A card before other text.
abbrev pub card_text : Card → Bytes → Bytes
card_text c rest = c.key ++ field c rest

pub cards_text : List Card → Bytes → Bytes
cards_text [] rest = rest
cards_text (c ∷ cs) rest = card_text c (cards_text cs rest)

abbrev pub header_of : Card → FitsHeader
header_of c = record { key = c.key; comment = c.comment; value = cval c.value }

pub headers_of : List Card → List FitsHeader
headers_of [] = []
headers_of (c ∷ cs) = header_of c ∷ headers_of cs

c_string_whole : (s : Bytes) → All NotNull s → c_string s ≡ s
unfolding c_string
c_string_whole [] h = refl
c_string_whole (c ∷ s) h = ground (arith, h.0, c_string_whole s h.1)

strncpy_whole : (n : ℕ) (s t : Bytes) → length s ≡ n → All NotNull s → strncpy n (s ++ t) ≡ some s
unfolding strncpy
strncpy_whole zero [] t l h = refl
strncpy_whole zero (c ∷ s) t l h = absurd (omega (arith, l))
strncpy_whole (suc n) [] t l h = absurd (omega (arith, l))
strncpy_whole (suc n) (c ∷ s) t l h =
    ground (arith, h.0, strncpy_whole n s t (omega (arith, l)) h.1)

value_NotNull : (s : Bytes) → All IsValueChar s → All NotNull s
value_NotNull [] h = h
value_NotNull (c ∷ s) h = (h.0.0, value_NotNull s h.1)

find_slash-append :
    (s t : Bytes) → All IsValueChar s → find_slash (s ++ (b'/' ∷ t)) ≡ slash (length s)
unfolding find_slash
find_slash-append [] t h = refl
find_slash-append (c ∷ s) t h = ground (arith, h.0, find_slash-append s t h.1)

-- The parts of a card where the parser looks for them.
module _ (c : Card) (h : IsCard c) (rest : Bytes) where
  behind_key : drop 8 (card_text c rest) ≡ field c rest
  behind_key = drop-append 8 c.key _ h.key_length

  slash_place : find_slash (drop 8 (card_text c rest)) ≡ slash (3 + length c.value)
  unfolding find_slash
  slash_place =
      rw (behind_key, find_slash-append c.value (c.comment ++ rest) h.value_chars)
        (ap slash (omega arith))

  value_part : drop 11 (card_text c rest) ≡ c.value ++ (b'/' ∷ (c.comment ++ rest))
  value_part = drop-drop 8 3 (card_text c rest) ∙ ap (drop 3) behind_key

  comment_part : drop (9 + (3 + length c.value)) (card_text c rest) ≡ c.comment ++ rest
  comment_part =
      let n = length c.value in
      let e : 9 + (3 + n) ≡ 11 + (n + 1) = omega arith in
      rw
        (
          e,
          drop-drop 11 (n + 1) (card_text c rest),
          value_part,
          drop-drop n 1 (c.value ++ (b'/' ∷ (c.comment ++ rest))),
          drop-append n c.value (b'/' ∷ (c.comment ++ rest)) refl,
        )
        refl

  behind_card : drop header_size (card_text c rest) ≡ rest
  behind_card =
      let n = length c.value in
      let e : header_size ≡ 9 + (3 + n) + length c.comment = omega (arith, h.card_length) in
      rw e (
        drop-drop (9 + (3 + n)) (length c.comment) (card_text c rest)
        ∙ ap (drop (length c.comment)) comment_part
        ∙ drop-append (length c.comment) c.comment rest refl)

  key_part : c_string (take 8 (card_text c rest)) ≡ c.key
  key_part =
      rw (take-append 8 c.key (field c rest) h.key_length, c_string_whole c.key h.key_chars) refl

  value_copy :
      strncpy_into 32
        (pos (8 + (3 + length c.value)) -ℤ pos 11)
        (c.value ++ (b'/' ∷ (c.comment ++ rest)))
      ≡ some c.value
  unfolding strncpy_into
  value_copy =
      let n = length c.value in
      let e : pos (8 + (3 + n)) -ℤ pos 11 ≡ pos n = ground arith in
      let fits : ltb n 32 ≡ true = ground (arith, h.value_length) in
      rw (e, fits) (strncpy_whole n c.value _ refl (value_NotNull c.value h.value_chars))

  comment_copy :
      strncpy_into 64
        (pos header_size -ℤ pos (8 + (3 + length c.value)) -ℤ pos 1)
        (c.comment ++ rest)
      ≡ some c.comment
  unfolding strncpy_into
  comment_copy =
      let n = length c.value in
      let m = length c.comment in
      let e : pos header_size -ℤ pos (8 + (3 + n)) -ℤ pos 1 ≡ pos m =
        ground (arith, h.card_length) in
      let fits : ltb m 64 ≡ true = ground (arith, h.value_length, h.card_length) in
      rw (e, fits) (strncpy_whole m c.comment rest refl h.comment_chars)

  read_card-card_text :
      (hdrs : List FitsHeader) (more : List FitsHeader → Parsed)
      → read_card (card_text c rest) hdrs more ≡ more (hdrs ++ header_of c ∷ [])
  unfolding read_card card_header
  read_card-card_text hdrs more =
      rw (slash_place, value_part, value_copy, comment_part, comment_copy, key_part, read_card) refl

-- A round of the loop on a card.
read_cards_round :
    (rounds at msg_len k : ℕ) (m : Bytes) (hdrs : List FitsHeader)
    → at ≤ msg_len
    → k ≢ 0
    → get_elem? m 7 ≡ some b'='
    → read_cards (suc rounds) at msg_len (k ∷ m) hdrs
      ≡ read_card
          (k ∷ m)
          hdrs
          (read_cards rounds (at + header_size) msg_len (drop header_size (k ∷ m)))
unfolding read_cards
read_cards_round rounds at msg_len k m hdrs le ne e = rw e (ground (arith, le, ne))

-- A key and what is behind it begin as the loop expects it.
key_first :
    (key t : Bytes)
    → length key ≡ 8
    → All NotNull key
    → (k : ℕ) × (m : Bytes) × (key ++ (b'=' ∷ t) ≡ k ∷ m) × (k ≢ 0) × (get_elem? m 7 ≡ some b'=')
key_first [] t l h = absurd (omega (arith, l))
key_first (k ∷ ks) t l h =
    (k, ks ++ (b'=' ∷ t), refl, h.0, get_elem?-append 7 ks t b'=' (omega (arith, l)))

read_cards-card_text :
    (c : Card) (rounds at msg_len : ℕ) (rest : Bytes) (hdrs : List FitsHeader)
    → IsCard c
    → at ≤ msg_len
    → read_cards (suc rounds) at msg_len (card_text c rest) hdrs
      ≡ read_cards rounds (at + header_size) msg_len rest (hdrs ++ header_of c ∷ [])
read_cards-card_text c rounds at msg_len rest hdrs h le =
    let (k, m, e, ne, eq) = key_first c.key _ h.key_length h.key_chars in
    let more = read_cards rounds (at + header_size) msg_len in
    ap (λ t. read_cards (suc rounds) at msg_len t hdrs) e
    ∙ read_cards_round rounds at msg_len k m hdrs le ne eq
    ∙ ap (λ t. read_card t hdrs (more (drop header_size t))) (sym e)
    ∙ read_card-card_text c h rest hdrs (more (drop header_size (card_text c rest)))
    ∙ ap (λ t. more t (hdrs ++ header_of c ∷ [])) (behind_card c h rest)

read_cards_end :
    (rounds at msg_len x : ℕ) (junk : Bytes) (hdrs : List FitsHeader)
    → msg_len < at
    → read_cards (suc rounds) at msg_len (x ∷ junk) hdrs ≡ resolved hdrs
unfolding read_cards
read_cards_end rounds at msg_len x junk hdrs lt = ground (arith, lt)

read_cards-cards_text :
    (cs : List Card) (rounds at msg_len x : ℕ) (junk : Bytes) (hdrs : List FitsHeader)
    → All IsCard cs
    → at + header_size * length cs ≡ msg_len + 1
    → length cs < rounds
    → read_cards rounds at msg_len (cards_text cs (x ∷ junk)) hdrs
      ≡ resolved (hdrs ++ headers_of cs)
unfolding cards_text headers_of
read_cards-cards_text [] (suc rounds) at msg_len x junk hdrs h l lt =
    read_cards_end rounds at msg_len x junk hdrs (omega (arith, l))
    ∙ ap resolved (sym (append-nil hdrs))
read_cards-cards_text (c ∷ cs) (suc rounds) at msg_len x junk hdrs h l lt =
    read_cards-card_text c rounds at msg_len (cards_text cs (x ∷ junk)) hdrs h.0 (omega (arith, l))
    ∙ read_cards-cards_text cs rounds (at + header_size) msg_len x junk (hdrs ++ header_of c ∷ [])
        h.1 (omega (arith, l)) (omega (arith, lt))
    ∙ ap resolved (append_assoc hdrs (header_of c ∷ []) (headers_of cs))
read_cards-cards_text cs zero at msg_len x junk hdrs h l lt = absurd (omega (arith, lt))

length-card_text :
    (c : Card) (rest : Bytes) → IsCard c → length (card_text c rest) ≡ 80 + length rest
length-card_text c rest h = omega (
  arith,
  length-append c.key (field c rest),
  length-append c.value (b'/' ∷ (c.comment ++ rest)),
  length-append c.comment rest,
  h.key_length,
  h.card_length,
)

length-cards_text :
    (cs : List Card) (rest : Bytes)
    → All IsCard cs
    → length (cards_text cs rest) ≡ 80 * length cs + length rest
unfolding cards_text
length-cards_text [] rest h = omega arith
length-cards_text (c ∷ cs) rest h =
    omega (arith, length-card_text c (cards_text cs rest) h.0, length-cards_text cs rest h.1)

-- Reading a message of one card or more gives the keys, the values and the comments of the cards back,
-- in their order, whatever stands behind the message in memory.
pub decoded_str_to_header-cards_text :
    (cs : List Card) (x : ℕ) (junk : Bytes)
    → All IsCard cs
    → 1 ≤ length cs
    → decoded_str_to_header (cards_text cs (x ∷ junk)) (80 * length cs - 1)
      ≡ resolved (headers_of cs)
unfolding decoded_str_to_header
decoded_str_to_header-cards_text cs x junk h some_cards =
    let memory = cards_text cs (x ∷ junk) in
    read_cards-cards_text cs (suc (length memory / header_size)) 0 (80 * length cs - 1) x junk [] h
      (omega (arith, some_cards)) (omega (arith, length-cards_text cs (x ∷ junk) h))
