-- ===== src/Aristarchos/Request.antt =====
-- send_request_header_sequence and get_aristarchos_headers of src/aristarchos.cpp: the exchange with the
-- telescope's server, and its repetition. What is printed is left out.
pub mod Attempts
use andor2k.Base.{
  ℕ, zero, suc, ◌+◌, ◌-◌, ◌*◌, ◌%◌, ◌^◌, Bool, true, false, ◌&&◌, List, [], ◌∷◌, ◌++◌, Option, none,
  some, ltb, ◌==◌, if◌then◌else◌, length, drop, ℤ, pos, negsuc, leb_ℤ, pos_part,
}
use andor2k.Base.Text.{Bytes, codes}
use andor2k.Headers.{FitsHeader}
use andor2k.Driver.{M, ◌>>=◌, ◌>>◌, ret, perform, sleep, connect_fcc, send_fcc, recv_fcc, close_fcc}
use andor2k.Aristarchos.{
  response_has_error, c_string, decode_message, decoded_str_to_header, Parsed, resolved, unresolved,
  overrun,
}

-- `wait_reply` is 0, or 1 to wait, or 2 to wait and go on without a reply; `sleep_after` is in seconds.
pub record AristrachosCommand : Type 0 where
  pub command : Bytes
  pub wait_reply : ℕ
  pub sleep_after : ℕ

abbrev pub cmd_sequence : List AristrachosCommand
cmd_sequence =
    record { command = codes "0006RE ON;"; wait_reply = 0; sleep_after = 8 }
    ∷ record { command = codes "0003RS;"; wait_reply = 1; sleep_after = 2 }
    ∷ record { command = codes "0006RE OF;"; wait_reply = 2; sleep_after = 2 }
    ∷ record { command = codes "0003RD;"; wait_reply = 1; sleep_after = 2 }
    ∷ []

-- The end of a round that fails: `error`, and the text that the buffer holds.
give_up : Bytes → M (Bool × Bytes)
give_up header = do perform close_fcc; ret (true, header)

-- The reply's flag says whether the time for it was over.
pub get_reply : ℕ → M (Bool × Bytes)
unfolding give_up response_has_error c_string
get_reply wait_reply = do
  r ← perform recv_fcc
  if leb_ℤ r.int1 (pos 0)
      then (if r.flag && ltb 1 wait_reply then ret (false, []) else give_up [])
      else if response_has_error r.text
      then give_up (c_string r.text)
      else ret (false, c_string r.text)

-- A round of the loop over the commands.
pub send_command : AristrachosCommand → M (Bool × Bytes)
unfolding give_up get_reply
send_command cmd = do
  sent ← perform (send_fcc cmd.command)
  if leb_ℤ sent.int1 (pos 0) then give_up cmd.command else (do
    perform (sleep (cmd.sleep_after * 1000))
    if cmd.wait_reply == 0 then ret (false, cmd.command) else get_reply cmd.wait_reply)

pub send_commands : List AristrachosCommand → Bytes → M (Bool × Bytes)
unfolding send_command
send_commands [] header = ret (false, header)
send_commands (cmd ∷ cmds) header = do
  (error, header') ← send_command cmd
  if error then ret (true, header') else send_commands cmds header'

-- One try, with the `error` that it leaves: 0 after the commands, whatever came of them, and 0 from the
-- start of the try where there is no connection.
pub connect_and_send : Bytes → M (Bool × Bytes)
unfolding send_commands
connect_and_send header = do
  connected ← perform connect_fcc
  if connected.flag
      then (do
        (error, header') ← send_commands cmd_sequence header
        perform close_fcc
        ret (false, header'))
      else ret (false, header)

-- The loop, with the number of tries that are left.
pub request_tries : ℕ → Bool → Bytes → M (Bool × Bytes)
unfolding connect_and_send
request_tries zero error header = ret (error, header)
request_tries (suc left) error header =
    let more = request_tries left in
    if error
    then (do (error', header') ← connect_and_send header; perform (sleep 200); more error' header')
    else ret (false, header)

-- `none` for a null pointer.
pub send_request_header_sequence : ℤ → Bytes → M (Option Bytes)
unfolding request_tries
send_request_header_sequence max_tries header = do
  (error, header') ← request_tries (pos_part max_tries) true header
  ret (if error then none else some header')

-- What is made of the answer of a try: a null pointer, and a text that is not decoded, is an error.
pub header_text : (Bytes → Option Bytes) → Option Bytes → Option Bytes
unfolding decode_message
header_text decompress none = none
header_text decompress (some raw_msg) = decode_message decompress raw_msg

pub text_or : M (Option Bytes) → Option Bytes → M (Option Bytes)
text_or again none = again
text_or again (some ascii_str) = ret (some ascii_str)

-- The loop for a header text, with the number of tries that are left; `none` where `error` is set after
-- the last.
pub header_tries : (Bytes → Option Bytes) → ℤ → ℕ → M (Option Bytes)
unfolding send_request_header_sequence header_text text_or
header_tries decompress num_tries zero = ret none
header_tries decompress num_tries (suc left) =
    let again = header_tries decompress num_tries left in
    do raw ← send_request_header_sequence num_tries []; text_or again (header_text decompress raw)

-- The status and the headers; `none` where memory is overrun.
pub parsed_status : Parsed → Option (ℤ × List FitsHeader)
parsed_status (resolved headers) = some (pos 0, headers)
parsed_status (unresolved headers) = some (negsuc 0, headers)
parsed_status overrun = none

-- `stale` is what is in `ascii_buf` when the text is written to its beginning.
pub extract_headers : Bytes → Option Bytes → Option (ℤ × List FitsHeader)
unfolding parsed_status decoded_str_to_header
extract_headers stale none = some (pos 1, [])
extract_headers stale (some ascii_str) = parsed_status (
    decoded_str_to_header (ascii_str ++ drop (length ascii_str) stale)
      ((length ascii_str + (2 ^ 32 - 1)) % 2 ^ 32))

pub get_aristarchos_headers : (Bytes → Option Bytes) → Bytes → ℤ → M (Option (ℤ × List FitsHeader))
unfolding header_tries extract_headers
get_aristarchos_headers decompress stale num_tries = do
  ascii_str ← header_tries decompress num_tries (pos_part num_tries)
  ret (extract_headers stale ascii_str)
