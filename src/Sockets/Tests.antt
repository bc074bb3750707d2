-- ===== src/Sockets/Tests.antt =====
-- A system that opens the descriptor 3 and refuses to connect.
use andor2k.Base.{◌≡◌, refl, [], none, pos, negsuc}
use andor2k.Base.Text.{codes}
use andor2k.Sockets.{
  System, open_stream, connect_to, client_socket, server_socket, thrown, to_uint16,
}
use andor2k.Sockets.Descriptors
use andor2k.Sockets.Server

abbrev refusing : System
refusing h open_stream = record { value = pos 3; text = []; peer = none }
refusing h (connect_to _ _) = record { value = negsuc 0; text = []; peer = none }
refusing h _ = record { value = pos 0; text = []; peer = none }

refused : (client_socket (codes "localhost") (pos 50001) refusing []).0 ≡ thrown (negsuc 29)
unfolding client_socket
refused = refl

-- A port that does not fit 16 bits is another port.
wrapped : to_uint16 (pos 65616) ≡ 80
wrapped = refl

client_socket-IsClient_example :
    Descriptors.IsClient
      (codes "localhost")
      (pos 50001)
      []
      (client_socket (codes "localhost") (pos 50001) refusing []).0
      (client_socket (codes "localhost") (pos 50001) refusing []).1
client_socket-IsClient_example =
    Descriptors.client_socket-IsClient (codes "localhost") (pos 50001) refusing []

server_socket-IsServer_example :
    Server.IsServer
      (pos 50001)
      []
      (server_socket (pos 50001) refusing []).0
      (server_socket (pos 50001) refusing []).1
server_socket-IsServer_example = Server.server_socket-IsServer (pos 50001) refusing []
