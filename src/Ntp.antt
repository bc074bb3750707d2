-- ===== src/Ntp.antt =====
-- src/get_ntp_time.cpp: the time of a server. A packet is its 48 bytes. The doubles are an argument.
-- What is printed is left out, and uint2double, which nothing calls.
pub mod Answer
mod Tests
use andor2k.Base.{
  ℕ, zero, suc, ◌+◌, ◌-◌, ◌*◌, Bool, true, false, List, [], ◌∷◌, ◌++◌, Option, none, some,
  if◌then◌else◌, length, drop, take, get_or, ℤ, pos, ◌-ℤ◌, ltb_ℤ,
}
use andor2k.Base.Text.{Bytes}
use andor2k.Sockets.{
  M, ◌>>=◌, ◌>>◌, ret, ask, system, Address, resolved, open_datagram, host_by_name, connect_to,
  write_to, read_from,
}

-- What the program does with doubles: the conversion of a `uint32_t`, `d > 1`, `d / 10`, and
-- `static_cast<int>(round(d * 1e3))`.
pub record Doubles : Type 1 where
  pub Double : Type 0
  pub of_uint32 : ℕ → Double
  pub above_one : Double → Bool
  pub tenth_part : Double → Double
  pub to_milli : Double → ℤ

abbrev pub ntp_port : ℕ
ntp_port = 123

abbrev pub ntp_timestamp_delta : ℕ
ntp_timestamp_delta = 2208988800

-- A `uint32_t` has ten digits at most.
abbrev pub max_divisions : ℕ
max_divisions = 10

-- The loop, for so many divisions at most; `none` where these do not suffice.
pub scaled_down : (ds : Doubles) → ℕ → ds.Double → Option ds.Double
scaled_down ds zero d = if ds.above_one d then none else some d
scaled_down ds (suc rounds) d =
    let rest = scaled_down ds rounds (ds.tenth_part d) in if ds.above_one d then rest else some d

abbrev pub milli_of : (ds : Doubles) → Option ds.Double → Option ℤ
milli_of ds none = none
milli_of ds (some d) = some (ds.to_milli d)

pub fsec2millisec : Doubles → ℕ → Option ℤ
unfolding scaled_down
fsec2millisec ds fsec = milli_of ds (scaled_down ds max_divisions (ds.of_uint32 fsec))

abbrev zeros : ℕ → Bytes
zeros zero = []
zeros (suc n) = 0 ∷ zeros n

-- li = 0, vn = 3, mode = 3; the rest is zero.
abbrev pub request : Bytes
request = 0x1b ∷ zeros 47

-- `ntohl` of the four bytes from a place on.
pub uint32_at : ℕ → Bytes → ℕ
uint32_at i s =
    get_or s i 0 * 16777216
    + get_or s (i + 1) 0 * 65536
    + get_or s (i + 2) 0 * 256
    + get_or s (i + 3) 0

-- The seconds since 1970, and the milliseconds that are added.
abbrev pub Time : Type 0
Time = ℤ × ℤ

abbrev pub at_second : ℤ → Option ℤ → Option Time
at_second s none = none
at_second s (some ms) = some (s, ms)

-- The time at which the packet left the server, where its last two members say when.
pub packet_time : Doubles → Bytes → Option Time
packet_time ds packet =
    at_second (pos (uint32_at 40 packet) -ℤ pos ntp_timestamp_delta)
      (fsec2millisec ds (uint32_at 44 packet))

-- `read` writes over the first bytes of the packet that was sent.
abbrev pub received : Bytes → Bytes
received text = text ++ drop (length text) request

-- The connection, the request and the answer. The status, and the time where it is 0.
pub exchange : Doubles → ℤ → Bytes → M (ℕ × Option Time)
exchange ds sockfd host = do
  connected ← system (connect_to sockfd (record { host = resolved host; port = ntp_port }))
  if ltb_ℤ connected (pos 0) then ret (1, none) else (do
    written ← system (write_to sockfd request)
    if ltb_ℤ written (pos 0) then ret (1, none) else (do
      answer ← ask (read_from sockfd 48)
      ret (
          if ltb_ℤ answer.value (pos 0)
          then (1, none)
          else (0, packet_time ds (received answer.text)))))

-- `gethostbyname` gives no value but a null pointer: a negative one here.
unfoldable pub get_ntp_time : Doubles → Bytes → M (ℕ × Option Time)
unfolding exchange packet_time
get_ntp_time ds ntp_server = do
  sockfd ← system open_datagram
  if ltb_ℤ sockfd (pos 0) then ret (1, none) else (do
    server ← ask (host_by_name ntp_server)
    if ltb_ℤ server.value (pos 0) then ret (1, none) else exchange ds sockfd server.text)
