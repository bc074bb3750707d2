-- ===== src/Client/Waiting.antt =====
-- How the client of bin/andor2k_client.cpp ends with the messages that the daemon sends.
use andor2k.Base.{
  ℕ, ◌≡◌, refl, false, List, [], ◌∷◌, ◌++◌, Option, none, some, ◌⊎◌, inl, inr, ℤ, pos,
}
use andor2k.Base.Text.{Bytes, codes, starts_with}
use andor2k.Driver.{Message}
use andor2k.Driver.Messages.{text_of}
use andor2k.Sockets.{System, History, Socket, Built, built, thrown, client_socket, recv_on, send_on}
use andor2k.Sockets.Descriptors.{open_fds, IsClient, client_socket-IsClient}
use andor2k.Client.{chat, run_client, client_main, andor_daemon_host, andor_daemon_port}

-- Nothing, a message of the daemon, or a message of its reporters.
abbrev pub FromDaemon : Bytes → Type 0
FromDaemon text =
    (text ≡ [])
    ⊎ (((m : Message) × (rest : Bytes) × (text ≡ text_of m ++ rest))
        ⊎ ((rest : Bytes) × (text ≡ codes "info:" ++ rest)))

no_exit : (m : Message) (rest : Bytes) → starts_with (codes "exit") (text_of m ++ rest) ≡ false
unfolding starts_with
no_exit Message.start_error rest = refl
no_exit _ rest = refl

-- The message "exit" is not among them.
no_exit_lem : (text : Bytes) → FromDaemon text → starts_with (codes "exit") text ≡ false
unfolding starts_with
no_exit_lem text (inl e) = rw e refl
no_exit_lem text (inr (inl (m, rest, e))) = rw e (no_exit m rest)
no_exit_lem text (inr (inr (rest, e))) = rw e refl

module _ (sys : System)
    (daemon : (h : History) (fd : ℤ) → FromDaemon (sys h (recv_on fd 1024 (pos 0))).text) where
  chat_waits : (lines : List Bytes) (s : Socket) (h : History) → (chat lines s sys h).0 ≡ false
  unfolding chat
  chat_waits [] s h = refl
  chat_waits (line ∷ lines) s h =
      let sent = send_on s.sockid (line ++ 10 ∷ []) (pos 0) in
      let h1 = (sent, (sys h sent).value) ∷ h in
      let got = sys h1 (recv_on s.sockid 1024 (pos 0)) in
      rw (chat, no_exit_lem got.text (daemon h1 s.sockid))
        (chat_waits lines s ((recv_on s.sockid 1024 (pos 0), got.value) ∷ h1))

-- With a socket that is connected the client goes on for ever; without one it has returned 1, and the
-- descriptors are those that were open before.
abbrev pub IsStuck : History → Built → Option ℕ × History → Type 0
IsStuck h (built s) (r, h') = r ≡ none
IsStuck h (thrown c) (r, h') = (r ≡ some 1) × (open_fds h' ≡ open_fds h)

module _ (sys : System)
    (daemon : (h : History) (fd : ℤ) → FromDaemon (sys h (recv_on fd 1024 (pos 0))).text)
    (lines : List Bytes) (h : History) where
  run_client-IsStuck :
      (b : Built) (h' : History)
      → IsClient andor_daemon_host andor_daemon_port h b h'
      → IsStuck h b (run_client lines b sys h')
  unfolding run_client
  run_client-IsStuck (thrown c) h' (same, _) = (refl, same)
  run_client-IsStuck (built s) h' _ = rw (chat_waits sys daemon lines s h') refl

  -- Where each thing that the client receives is nothing, a message of the daemon from its first
  -- character on, or one of its reporters: if its socket is connected, the client never returns, whatever
  -- the user types; if its socket throws, it returns 1 and leaves no descriptor open.
  pub client_main-IsStuck :
      let (b, h') = client_socket andor_daemon_host andor_daemon_port sys h in
      IsStuck h b (client_main lines sys h)
  unfolding client_main
  client_main-IsStuck =
      let (b, h') = client_socket andor_daemon_host andor_daemon_port sys h in
      run_client-IsStuck b h' (client_socket-IsClient andor_daemon_host andor_daemon_port sys h)
