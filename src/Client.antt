-- ===== src/Client.antt =====
-- bin/andor2k_client.cpp: a client of the daemon, on which a user types commands. What is printed is
-- left out. The lines that the user types are an argument: behind the last the client waits for ever.
pub mod Waiting
mod Tests
use andor2k.Base.{
  ℕ, Bool, true, false, List, [], ◌∷◌, ◌++◌, Option, none, some, if◌then◌else◌, ℤ, pos,
}
use andor2k.Base.Text.{Bytes, codes, starts_with}
use andor2k.Sockets.{
  Socket, M, ◌>>=◌, ◌>>◌, ret, send, recv, destroy, Built, built, thrown, client_socket,
}

abbrev pub andor_daemon_host : Bytes
andor_daemon_host = codes "127.0.0.1"

abbrev pub andor_daemon_port : ℤ
andor_daemon_port = pos 8080

-- The loop: whether the chat has come to its end. A command is sent with the end of its line.
pub chat : List Bytes → Socket → M Bool
unfolding send recv starts_with
chat [] s = ret false
chat (line ∷ lines) s =
    let more = chat lines s in
    do
      send (line ++ 10 ∷ []) (pos 0) s
      (_, buffer) ← recv 1024 (pos 0) s
      if starts_with (codes "exit") buffer then ret true else more

-- What `main` does with a socket; `none` where it goes on for ever.
pub run_client : List Bytes → Built → M (Option ℕ)
unfolding chat destroy
run_client lines (thrown _) = ret (some 1)
run_client lines (built s) = do
  ended ← chat lines s
  if ended then (do destroy s; ret (some 0)) else ret none

-- `main`
unfoldable pub client_main : List Bytes → M (Option ℕ)
unfolding client_socket run_client
client_main lines = client_socket andor_daemon_host andor_daemon_port >>= run_client lines
