-- ===== src/Aristarchos/Tests.antt =====
-- A message of the telescope's server, and a server that does not answer.
use andor2k.Base.{
  false, true, ℕ, ◌+◌, ◌%◌, ◌≤◌, ◌≡◌, refl, List, [], ◌∷◌, ◌++◌, Option, none, some, arith, length,
  ◌==◌, if◌then◌else◌, ℤ, pos,
}
use andor2k.Base.Text.{Bytes, codes}
use andor2k.Base64.{base64encode}
use andor2k.Headers.{FitsHeader}
use andor2k.Driver.{Environment, History, success}
use andor2k.Aristarchos.{
  false, true, add_char_every, decoded_str_to_header, decode_message, resolved, response_has_error,
  overrun,
}
use andor2k.Aristarchos.Cards
use andor2k.Aristarchos.Cards.{Card, IsCard, cards_text, headers_of}
use andor2k.Aristarchos.Refusal
use andor2k.Aristarchos.Chunks
use andor2k.Aristarchos.Overrun
use andor2k.Aristarchos.Chunks.{marked}
use andor2k.Aristarchos.Request.{get_aristarchos_headers}
use andor2k.Aristarchos.Request.Attempts
use andor2k.Aristarchos.Request.Attempts.{connects}

error_reply : response_has_error (codes "0006?") ≡ true
unfolding response_has_error
error_reply = refl

marked_by_six : add_char_every (codes "abcdefg") 6 b'+' ≡ codes "abcdef+g+"
unfolding add_char_every
marked_by_six = refl

add_char_every-marked_example :
    add_char_every (codes "abcdefg") 6 b'+' ≡ marked 6 b'+' 0 (codes "abcdefg")
add_char_every-marked_example = Chunks.add_char_every-marked (codes "abcdefg") 6 b'+' (omega arith)

abbrev focus : Card
focus = record {
  key = codes "FOCUS   ";
  value = codes "12.5 mm             ";
  comment = codes " position of the focus                          ";
}

focus-IsCard : IsCard focus
focus-IsCard = record {
  key_length = refl;
  value_length = (omega arith, omega arith);
  card_length = refl;
  key_chars = ground arith;
  value_chars = ground arith;
  comment_chars = ground arith;
}

decoded_str_to_header-cards_text_example :
    decoded_str_to_header (cards_text (focus ∷ focus ∷ []) (7 ∷ [])) 159
    ≡ resolved (headers_of (focus ∷ focus ∷ []))
decoded_str_to_header-cards_text_example =
    Cards.decoded_str_to_header-cards_text (focus ∷ focus ∷ []) 7 []
      (focus-IsCard, (focus-IsCard, tt)) (omega arith)

-- A value of one character more than there is room for.
abbrev long_card : Bytes
long_card =
    codes "FOCUS   =  "
    ++ codes "abcdefghijklmnopqrstuvwxyz123456/ the comment of the card            "

overruns : decoded_str_to_header (long_card ++ 0 ∷ []) 79 ≡ overrun
unfolding decoded_str_to_header
overruns = refl

abbrev packed : Bytes
packed = codes "BZh"

decode_message-base64encode_example :
    decode_message some (codes "0103" ++ (codes "BF=" ++ ((base64encode packed).0 ++ (b';' ∷ []))))
    ≡ (if length packed % 3 == 0 then some packed else none)
decode_message-base64encode_example =
    Refusal.decode_message-base64encode some (codes "0103") packed [] (ground arith) (ground arith)

-- Nothing answers.
abbrev silent : Environment
silent h e = record {
  status = success;
  flag = false;
  int1 = pos 0;
  int2 = pos 0;
  float1 = 0;
  float2 = 0;
  float3 = 0;
  text = [];
  headers = [];
}

get_aristarchos_headers-connects_example :
    (k : ℕ) × (r : Option (ℤ × List FitsHeader)) × (h' : History) × (get_aristarchos_headers some []
        (pos 3)
        silent
        []
      ≡ (r, h'))
    × (connects h' ≡ k + 0)
    × (1 ≤ k)
    × (k ≤ 3)
    × (r ≡ some (pos 1, []) → k ≡ 3)
get_aristarchos_headers-connects_example =
    Attempts.get_aristarchos_headers-connects some [] 2 silent []
