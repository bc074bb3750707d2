-- ===== src/Sockets.antt =====
-- src/cpp_socket.hpp and src/cpp_socket.cpp, as built without SOCKET_LOGGER: sockets, and the sockets
-- of a client and of a server, whose constructors may throw. The system is not part of the
-- repository: a call is an entry of a history with the value that it returned, the newest first, and
-- an argument says what it returns.
pub mod Descriptors
pub mod Server
mod Tests
use andor2k.Base.{
  ℕ, ◌-◌, ◌%◌, Bool, true, false, List, [], ◌∷◌, Option, none, some, if◌then◌else◌, length, ℤ, pos,
  negsuc, ltb_ℤ,
}
use andor2k.Base.Text.{Bytes, codes, str_eq}

-- `INADDR_ANY`, `inet_addr` of a text, or the address that `gethostbyname` gives.
pub data Host : Type 0 where
  any : Host
  inet : Bytes → Host
  resolved : Bytes → Host

-- The port is the 16 bits that `htons` is given.
pub record Address : Type 0 where
  pub host : Host
  pub port : ℕ

pub data SysCall : Type 0 where
  open_stream : SysCall
  bind_to : ℤ → Address → SysCall
  listen_on : ℤ → ℤ → SysCall
  accept_on : ℤ → SysCall
  connect_to : ℤ → Address → SysCall
  send_on : ℤ → Bytes → ℤ → SysCall
  recv_on : ℤ → ℕ → ℤ → SysCall
  -- fcntl with F_GETFL, and with F_SETFL and the flags with O_NONBLOCK
  get_flags : ℤ → SysCall
  set_non_blocking_flag : ℤ → ℤ → SysCall
  close_fd : ℤ → SysCall
  -- A socket of datagrams, `gethostbyname`, `write` and `read`.
  open_datagram : SysCall
  host_by_name : Bytes → SysCall
  write_to : ℤ → Bytes → SysCall
  read_from : ℤ → ℕ → SysCall

pub record Reply : Type 0 where
  pub value : ℤ
  pub text : Bytes
  pub peer : Option Address

-- A call and the value that it returned.
abbrev pub History : Type 0
History = List (SysCall × ℤ)

abbrev pub System : Type 0
System = History → SysCall → Reply

abbrev pub M {ℓ} : Type ℓ → Type ℓ
M A = System → History → A × History

infixl 5 ◌>>=◌ ◌>>◌
abbrev pub ◌>>=◌ {ℓ κ} : {A : Type ℓ} {B : Type κ} → M A → (A → M B) → M B
◌>>=◌ m f sys h = let (a, h') = m sys h in f a sys h'

abbrev pub ◌>>◌ {ℓ κ} : {A : Type ℓ} {B : Type κ} → M A → M B → M B
◌>>◌ m k = m >>= λ _. k

abbrev pub ret {ℓ} : {A : Type ℓ} → A → M A
ret a sys h = (a, h)

abbrev pub ask : SysCall → M Reply
ask c sys h = (sys h c, (c, (sys h c).value) ∷ h)

abbrev pub system : SysCall → M ℤ
system c sys h = ((sys h c).value, (c, (sys h c).value) ∷ h)

-- The descriptor, and the address if it is set.
pub record Socket : Type 0 where
  pub sockid : ℤ
  pub address : Option Address

-- The conversion to `uint16_t`.
abbrev pub to_uint16 : ℤ → ℕ
to_uint16 (pos n) = n % 65536
to_uint16 (negsuc n) = 65535 - n % 65536

-- `Socket()`
pub new_socket : M Socket
new_socket = do fd ← system open_stream; ret (record { sockid = fd; address = none })

-- `~Socket()`
unfoldable pub destroy : Socket → M (Unit {0})
destroy s = do system (close_fd s.sockid); ret tt

pub socket_close : Socket → M ℤ
socket_close s = system (close_fd s.sockid)

pub sock_host : Option Bytes → Host
sock_host none = any
sock_host (some ip) = if str_eq (codes "localhost") ip then inet (codes "127.0.0.1") else inet ip

abbrev pub sock_address : ℤ → Option Bytes → Address
sock_address port ip = record { host = sock_host ip; port = to_uint16 port }

pub set_sock_addr : ℤ → Option Bytes → Socket → Socket
unfolding sock_host
set_sock_addr port ip s = record s { address = some (sock_address port ip) }

unfoldable pub send : Bytes → ℤ → Socket → M ℤ
send msg flag s = system (send_on s.sockid msg flag)

unfoldable pub recv : ℕ → ℤ → Socket → M (ℤ × Bytes)
recv buf_sz flag s = do r ← ask (recv_on s.sockid buf_sz flag); ret (r.value, r.text)

-- The value, and the socket with the address that the call was given.
pub bind : ℤ → Socket → M (ℤ × Socket)
unfolding set_sock_addr
bind port s = do
  r ← system (bind_to s.sockid (sock_address port none))
  ret (r, set_sock_addr port none s)

abbrev pub maxconnections : ℤ
maxconnections = pos 5

pub listen : ℤ → Socket → M ℤ
listen max_connections s =
    system (
      listen_on s.sockid
        (if ltb_ℤ max_connections (pos 0) then maxconnections else max_connections))

-- The status, and the new socket, whose descriptor is the status.
pub accept : Socket → M (ℤ × Socket)
accept s = do
  r ← ask (accept_on s.sockid)
  ret (r.value, record { sockid = r.value; address = r.peer })

pub connect : Bytes → ℤ → Socket → M (ℤ × Socket)
unfolding set_sock_addr
connect ip port s = do
  r ← system (connect_to s.sockid (sock_address port (some ip)))
  ret (r, set_sock_addr port (some ip) s)

pub set_non_blocking : Socket → M ℤ
set_non_blocking s = do
  flags ← system (get_flags s.sockid)
  if ltb_ℤ flags (pos 0) then ret flags else system (set_non_blocking_flag s.sockid flags)

-- What a constructor ends with: the socket, or an exception with a status.
pub data Built : Type 0 where
  built : Socket → Built
  thrown : ℤ → Built

-- The end of a constructor. An exception destroys the member that is constructed.
pub finish : ℤ → Socket → M Built
unfolding destroy
finish status s =
    if ltb_ℤ status (pos 0) then (do destroy s; ret (thrown status)) else ret (built s)

-- `ClientSocket(host, port)`
unfoldable pub client_socket : Bytes → ℤ → M Built
unfolding new_socket connect finish
client_socket host port = do
  s ← new_socket
  if ltb_ℤ s.sockid (pos 0)
      then finish (negsuc 9) s
      else (do (r, s') ← connect host port s; finish (if ltb_ℤ r (pos 0) then negsuc 29 else r) s')

-- The third step of `ServerSocket(port)`, and its end.
pub server_listen : ℤ → Socket → M Built
unfolding listen finish
server_listen status s =
    if ltb_ℤ status (pos 0)
    then finish (negsuc 29) s
    else (do r ← listen (negsuc 0) s; finish (if ltb_ℤ r (pos 0) then negsuc 39 else r) s)

-- `ServerSocket(port)`
unfoldable pub server_socket : ℤ → M Built
unfolding new_socket set_sock_addr bind server_listen finish
server_socket port = do
  s ← new_socket
  if ltb_ℤ s.sockid (pos 0)
      then finish (negsuc 9) (set_sock_addr port none s)
      else (do (r, s') ← bind port (set_sock_addr port none s); server_listen r s')
