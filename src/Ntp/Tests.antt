-- ===== src/Ntp/Tests.antt =====
-- A server that answers a thousand seconds after 1970 began, with numbers for doubles.
use andor2k.Base.{
  ℕ, ◌/◌, ◌%◌, ◌<◌, ◌≤◌, ◌^◌, ◌≡◌, refl, true, [], ◌∷◌, if◌then◌else◌, ltb, arith, ℤ, pos, some,
  none,
}
use andor2k.Base.Text.{Bytes, codes}
use andor2k.Sockets.{System}
use andor2k.Sockets.Descriptors.{open_fds}
use andor2k.Ntp.{Doubles, get_ntp_time, fsec2millisec, uint32_at}
use andor2k.Ntp.Answer
use andor2k.Ntp.Answer.{HasDigits, sent_at}

abbrev whole_numbers : Doubles
whole_numbers = record {
  Double = ℕ;
  of_uint32 = λ n. n;
  above_one = λ n. ltb 1 n;
  tenth_part = λ n. n / 10;
  to_milli = λ n. pos (n % 1000);
}

abbrev digits_of : ℕ → ℕ
digits_of n =
    if ltb n 2
    then 0
    else if ltb n 20
    then 1
    else if ltb n 200
    then 2
    else if ltb n 2000
    then 3
    else if ltb n 20000
    then 4
    else if ltb n 200000
    then 5
    else if ltb n 2000000
    then 6
    else if ltb n 20000000
    then 7
    else if ltb n 200000000
    then 8
    else if ltb n 2000000000
    then 9
    else if ltb n 20000000000
    then 10
    else 11

digits_few : (n : ℕ) → n < 2 ^ 32 → digits_of n ≤ 10
digits_few n h = ground arith

digits_fewer : (n : ℕ) → digits_of n ≤ 10 → ltb 1 n ≡ true → digits_of (n / 10) < digits_of n
digits_fewer n h t = ground arith

abbrev zero_head : Bytes
zero_head =
    0 ∷ 0 ∷ 0 ∷ 0 ∷ 0 ∷ 0 ∷ 0 ∷ 0 ∷ 0 ∷ 0 ∷ 0 ∷ 0 ∷ 0 ∷ 0 ∷ 0 ∷ 0 ∷ 0 ∷ 0 ∷ 0 ∷ 0 ∷ 0 ∷ 0 ∷ 0 ∷ 0
    ∷ 0 ∷ 0 ∷ 0 ∷ 0 ∷ 0 ∷ 0 ∷ 0 ∷ 0 ∷ 0 ∷ 0 ∷ 0 ∷ 0 ∷ 0 ∷ 0 ∷ 0 ∷ 0 ∷ []

abbrev answering : System
answering h c = record { value = pos 3; text = sent_at zero_head 1000 1; peer = none }

answered : (get_ntp_time whole_numbers (codes "pool") answering []).0 ≡ (0, some (pos 1000, pos 1))
unfolding get_ntp_time fsec2millisec uint32_at
answered = refl

answered_ok : (get_ntp_time whole_numbers (codes "pool") answering []).0.0 ≡ 0
unfolding get_ntp_time
answered_ok = refl

has_digits : HasDigits whole_numbers
has_digits = record { digits = digits_of; few = digits_few; fewer = digits_fewer }

open_fds-get_ntp_time_example :
    open_fds (get_ntp_time whole_numbers (codes "pool") answering []).1 ≡ pos 3 ∷ []
open_fds-get_ntp_time_example =
    Answer.open_fds-get_ntp_time whole_numbers (codes "pool") answering [] refl

get_ntp_time-sent_at_example :
    (ms : ℤ) × ((get_ntp_time whole_numbers (codes "pool") answering []).0.1 ≡ some (pos 1000, ms))
get_ntp_time-sent_at_example =
    Answer.get_ntp_time-sent_at whole_numbers has_digits (codes "pool") zero_head 1000 1 answering
      [] refl (omega arith) (omega arith) (λ h fd. refl) answered_ok
