-- ===== src/Client/Tests.antt =====
-- A user who types two commands to a daemon that says that they are done.
use andor2k.Base.{◌≡◌, refl, [], ◌∷◌, List, none, pos, inl, inr, ℤ}
use andor2k.Base.Text.{Bytes, codes}
use andor2k.Driver.{Message}
use andor2k.Driver.Messages.{text_of}
use andor2k.Sockets.{System, History, recv_on, client_socket}
use andor2k.Client.{client_main, andor_daemon_host, andor_daemon_port}
use andor2k.Client.Waiting
use andor2k.Client.Waiting.{FromDaemon}

abbrev answering : System
answering h c = record { value = pos 3; text = text_of Message.invalid_command; peer = none }

answers : (h : History) (fd : ℤ) → FromDaemon (answering h (recv_on fd 1024 (pos 0))).text
answers h fd = inr (inl (Message.invalid_command, [], refl))

abbrev typed : List Bytes
typed = codes "status" ∷ codes "exit" ∷ []

waiting : (client_main typed answering []).0 ≡ none
unfolding client_main
waiting = refl

client_main-IsStuck_example :
    Waiting.IsStuck []
      (client_socket andor_daemon_host andor_daemon_port answering []).0
      (client_main typed answering [])
client_main-IsStuck_example = Waiting.client_main-IsStuck answering answers typed []
