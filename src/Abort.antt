-- ===== src/Abort.antt =====
-- src/abort_listener.cpp: the thread that listens for an abort. What is printed is left out. The
-- sockets are closed by their destructors, and an exception can only come from opening the first.
pub mod Signal
mod Tests
use andor2k.Base.{Bool, true, false, if◌then◌else◌, ℤ, pos, negsuc, ltb_ℤ, leb_ℤ}
use andor2k.Driver.{
  M, ◌>>=◌, ◌>>◌, ret, perform, driver, cancel_wait, set_abort, lock_abort, unlock_abort,
  notify_abort, set_abort_fd, listen_abort, accept_abort, receive_abort,
}

-- A message on the socket, whatever it says.
pub take_message : M (Unit {0})
take_message = do
  bytes ← perform receive_abort
  if leb_ℤ bytes.int1 (pos 0)
      then ret tt
      else (do perform (set_abort true); driver cancel_wait; ret tt)

pub await_message : M (Unit {0})
unfolding take_message
await_message = do
  sock_status ← perform accept_abort
  if ltb_ℤ sock_status.int1 (pos 0) then ret tt else take_message

-- The socket's number is for those that close it; the mutex is held while it is written.
pub abort_listener : M (Unit {0})
unfolding await_message
abort_listener = do
  perform (set_abort false)
  perform lock_abort
  server_sock ← perform listen_abort
  if server_sock.flag
      then (do
        perform (set_abort_fd server_sock.int1)
        perform unlock_abort
        perform notify_abort
        await_message)
      else (do
        perform (set_abort_fd (negsuc 0))
        perform unlock_abort
        perform notify_abort
        ret tt)
