-- ===== src/Ntp/Answer.antt =====
-- What src/get_ntp_time.cpp makes of a server's answer, and what it leaves open.
use andor2k.Base.{
  append_assoc, append-nil, ℕ, zero, suc, ◌+◌, ◌/◌, ◌%◌, ◌^◌, ◌≤◌, ◌<◌, ◌≡◌, refl, sym, ap, ◌∙◌,
  true, false, [], ◌∷◌, ◌++◌, some, arith, length, drop, get_or, length-append, ℤ, pos, ◌-ℤ◌, ltb_ℤ,
  Bool-cases, inl, inr,
}
use andor2k.Base.Text.{Bytes}
use andor2k.Sockets.{
  System, History, open_datagram, host_by_name, connect_to, write_to, read_from, resolved,
}
use andor2k.Sockets.Descriptors.{open_fds}
use andor2k.Ntp.{
  Doubles, ntp_timestamp_delta, ntp_port, scaled_down, fsec2millisec, milli_of, uint32_at,
  packet_time, received, request, exchange, get_ntp_time,
}

-- A double that comes of a `uint32_t` is divided ten times at most.
pub record HasDigits (ds : Doubles) : Type 0 where
  pub digits : ds.Double → ℕ
  pub few : (n : ℕ) → n < 2 ^ 32 → digits (ds.of_uint32 n) ≤ 10
  pub fewer :
      (d : ds.Double) → digits d ≤ 10 → ds.above_one d ≡ true → digits (ds.tenth_part d) < digits d

scaled_down_ends :
    (ds : Doubles) (k : HasDigits ds) (rounds : ℕ) (d : ds.Double)
    → rounds ≤ 10
    → k.digits d ≤ rounds
    → (x : ds.Double) × (scaled_down ds rounds d ≡ some x)
unfolding scaled_down
scaled_down_ends ds k zero d le h = elim (Bool-cases (ds.above_one d)) [
  | inl t ↦ absurd (omega (arith, k.fewer d (omega arith) t))
  | inr f ↦ (d, rw (f, scaled_down) refl)
]
scaled_down_ends ds k (suc rounds) d le h = elim (Bool-cases (ds.above_one d)) [
  | inl t ↦
      let (x, e) =
        scaled_down_ends ds k rounds (ds.tenth_part d) (omega arith)
          (omega (arith, k.fewer d (omega arith) t)) in
      (x, rw (t, scaled_down) e)
  | inr f ↦ (d, rw (f, scaled_down) refl)
]

fsec2millisec_ends :
    (ds : Doubles) → HasDigits ds → (n : ℕ) → n < 2 ^ 32 → (ms : ℤ) × (fsec2millisec ds n ≡ some ms)
unfolding fsec2millisec
fsec2millisec_ends ds k n h =
    let (x, e) = scaled_down_ends ds k 10 (ds.of_uint32 n) (omega arith) (k.few n h) in
    (ds.to_milli x, ap (milli_of ds) e)

-- A number in network order.
abbrev pub big_endian : ℕ → Bytes
big_endian n = n / 16777216 % 256 ∷ n / 65536 % 256 ∷ n / 256 % 256 ∷ n % 256 ∷ []

get_or-append :
    (xs ys : Bytes) (n k : ℕ) → length xs ≡ n → get_or (xs ++ ys) (n + k) 0 ≡ get_or ys k 0
get_or-append [] ys zero k h = let e : 0 + k ≡ k = omega arith in rw e refl
get_or-append [] ys (suc n) k h = absurd (omega (arith, h))
get_or-append (x ∷ xs) ys zero k h = absurd (omega (arith, h))
get_or-append (x ∷ xs) ys (suc n) k h =
    let e : suc n + k ≡ suc (n + k) = omega arith in
    rw e (get_or-append xs ys n k (omega (arith, h)))

uint32_at_lem :
    (pre rest : Bytes) (n : ℕ) (i : ℕ)
    → length pre ≡ i
    → n < 2 ^ 32
    → uint32_at i (pre ++ (big_endian n ++ rest)) ≡ n
unfolding uint32_at
uint32_at_lem pre rest n i h small =
    let s = big_endian n ++ rest in
    let e : i ≡ i + 0 = omega arith in
    let first : get_or (pre ++ s) i 0 ≡ n / 16777216 % 256 =
      ap (λ k. get_or (pre ++ s) k 0) e ∙ get_or-append pre s i 0 h in
    omega (
      arith,
      first,
      get_or-append pre s i 1 h,
      get_or-append pre s i 2 h,
      get_or-append pre s i 3 h,
    )

-- The packet of a server that sends it so many seconds after 1970 began, and a fraction of a second.
abbrev pub sent_at : Bytes → ℕ → ℕ → Bytes
sent_at pre t fraction = pre ++ (big_endian (t + ntp_timestamp_delta) ++ big_endian fraction)

drop_all : (n : ℕ) → n ≡ 48 → drop n request ≡ []
drop_all n h = rw h refl

received_whole : (text : Bytes) → length text ≡ 48 → received text ≡ text
received_whole text h = rw (drop_all (length text) h) (append-nil text)

since_1970 : (t : ℕ) → (pos (t + ntp_timestamp_delta) -ℤ pos ntp_timestamp_delta) ≡ pos t
since_1970 t = ground arith

module _ (ds : Doubles) (k : HasDigits ds) (pre : Bytes) (t fraction : ℕ) where
  packet_time_lem :
      length pre ≡ 40
      → t + ntp_timestamp_delta < 2 ^ 32
      → fraction < 2 ^ 32
      → (ms : ℤ) × (packet_time ds (received (sent_at pre t fraction)) ≡ some (pos t, ms))
  unfolding packet_time
  packet_time_lem whole fits small =
      let (ms, e) = fsec2millisec_ends ds k fraction small in
      let seconds = big_endian (t + ntp_timestamp_delta) in
      let bytes : length (sent_at pre t fraction) ≡ 48 =
        omega (arith, length-append pre (seconds ++ big_endian fraction)) in
      let last : uint32_at 44 (sent_at pre t fraction) ≡ fraction =
        ap (uint32_at 44) (sym (append_assoc pre seconds (big_endian fraction)))
        ∙ uint32_at_lem (pre ++ seconds) [] fraction 44 (omega (arith, length-append pre seconds))
            small in
      (
        ms,
        rw
            (
              packet_time,
              received_whole (sent_at pre t fraction) bytes,
              uint32_at_lem pre (big_endian fraction) (t + ntp_timestamp_delta) 40 whole fits,
              last,
              e,
              since_1970 t,
            )
            refl,
      )

module _ (ds : Doubles) (host : Bytes) (sys : System) (h : History) where
  -- Where a descriptor is opened for the exchange, it is open still when get_ntp_time returns, on every
  -- path, with those that were open before.
  pub open_fds-get_ntp_time :
      let fd = (sys h open_datagram).value in
      ltb_ℤ fd (pos 0) ≡ false → open_fds (get_ntp_time ds host sys h).1 ≡ fd ∷ open_fds h
  unfolding get_ntp_time exchange
  open_fds-get_ntp_time f =
      let fd = (sys h open_datagram).value in
      let h1 = (open_datagram, fd) ∷ h in
      let server = sys h1 (host_by_name host) in
      let h2 = (host_by_name host, server.value) ∷ h1 in
      let to = connect_to fd (record { host = resolved server.text; port = ntp_port }) in
      let connected = (sys h2 to).value in
      let h3 = (to, connected) ∷ h2 in
      let written = (sys h3 (write_to fd request)).value in
      elim (Bool-cases (ltb_ℤ server.value (pos 0))) [
        | inl t ↦ rw (get_ntp_time, f, t) (rw f refl)
        | inr a ↦ elim (Bool-cases (ltb_ℤ connected (pos 0))) [
          | inl t ↦ rw (get_ntp_time, f, a, exchange, t) (rw f refl)
          | inr b ↦ elim (Bool-cases (ltb_ℤ written (pos 0))) [
            | inl t ↦ rw (get_ntp_time, f, a, exchange, b, t) (rw f refl)
            | inr c ↦ rw (get_ntp_time, f, a, exchange, b, c) (rw f refl)
          ]
        ]
      ]

-- With doubles of ten digits at most, a server that sends its packet t seconds after 1970 began, before
-- the 32 bits overflow in the year 2036: where the status is 0, the time is that second and some
-- milliseconds, so that the loop over the fraction has come to an end.
pub get_ntp_time-sent_at :
    (ds : Doubles)
    → HasDigits ds
    → (host pre : Bytes) (t fraction : ℕ) (sys : System) (h : History) → length pre ≡ 40
    → t + ntp_timestamp_delta < 2 ^ 32
    → fraction < 2 ^ 32
    → ((h' : History) (fd : ℤ) → (sys h' (read_from fd 48)).text ≡ sent_at pre t fraction)
    → (get_ntp_time ds host sys h).0.0 ≡ 0
    → (ms : ℤ) × ((get_ntp_time ds host sys h).0.1 ≡ some (pos t, ms))
unfolding get_ntp_time exchange
get_ntp_time-sent_at ds k host pre t fraction sys h whole fits small answers ok =
    let fd = (sys h open_datagram).value in
    let h1 = (open_datagram, fd) ∷ h in
    let server = sys h1 (host_by_name host) in
    let h2 = (host_by_name host, server.value) ∷ h1 in
    let to = connect_to fd (record { host = resolved server.text; port = ntp_port }) in
    let connected = (sys h2 to).value in
    let h3 = (to, connected) ∷ h2 in
    let written = (sys h3 (write_to fd request)).value in
    let h4 = (write_to fd request, written) ∷ h3 in
    let (ms, e) = packet_time_lem ds k pre t fraction whole fits small in
    elim (Bool-cases (ltb_ℤ fd (pos 0))) [
      | inl t ↦ absurd (ground arith)
      | inr f ↦ elim (Bool-cases (ltb_ℤ server.value (pos 0))) [
        | inl t ↦ absurd (ground arith)
        | inr a ↦ elim (Bool-cases (ltb_ℤ connected (pos 0))) [
          | inl t ↦ absurd (ground arith)
          | inr b ↦ elim (Bool-cases (ltb_ℤ written (pos 0))) [
            | inl t ↦ absurd (ground arith)
            | inr c ↦ elim (Bool-cases (ltb_ℤ (sys h4 (read_from fd 48)).value (pos 0))) [
              | inl t ↦ absurd (ground arith)
              | inr g ↦ (ms, rw (get_ntp_time, f, a, exchange, b, c, g, answers h4 fd) e)
            ]
          ]
        ]
      ]
    ]
