-- ===== src/Sockets/Descriptors.antt =====
-- The descriptors that the sockets of src/cpp_socket.cpp hold, and what the constructors leave.
use andor2k.Base.{
  ◌≡◌, refl, true, false, List, [], ◌∷◌, some, if◌then◌else◌, ℤ, pos, negsuc, ltb_ℤ, eqb_ℤ, arith,
  ◌⊎◌, inl, inr, Bool-cases,
}
use andor2k.Base.Text.{Bytes}
use andor2k.Sockets.{
  open_stream, open_datagram, accept_on, close_fd, connect_to, History, System, Built, built,
  thrown, finish, new_socket, connect, client_socket, sock_address, set_sock_addr, destroy,
}

abbrev pub remove : ℤ → List ℤ → List ℤ
remove fd [] = []
remove fd (x ∷ xs) = if eqb_ℤ x fd then xs else x ∷ remove fd xs

-- The descriptors that are open, the last opened first. A negative one is none.
abbrev pub open_fds : History → List ℤ
open_fds [] = []
open_fds ((open_stream, v) ∷ h) = if ltb_ℤ v (pos 0) then open_fds h else v ∷ open_fds h
open_fds ((open_datagram, v) ∷ h) = if ltb_ℤ v (pos 0) then open_fds h else v ∷ open_fds h
open_fds ((accept_on _, v) ∷ h) = if ltb_ℤ v (pos 0) then open_fds h else v ∷ open_fds h
open_fds ((close_fd fd, _) ∷ h) = if ltb_ℤ fd (pos 0) then open_fds h else remove fd (open_fds h)
open_fds (_ ∷ h) = open_fds h

eqb_same : (z : ℤ) → eqb_ℤ z z ≡ true
eqb_same z = ground arith

-- A descriptor that is closed by an exception was opened last, or it is none.
pub given_back :
    (fd c : ℤ) (h : History) → open_fds ((close_fd fd, c) ∷ (open_stream, fd) ∷ h) ≡ open_fds h
given_back fd c h = elim (Bool-cases (ltb_ℤ fd (pos 0))) [
  | inl t ↦ rw t refl
  | inr f ↦ rw (f, eqb_same fd) refl
]

-- A socket that is built is connected to the address by a call that succeeded, after its descriptor
-- was opened, and that is all that was done. An exception has the status -10 or -30.
abbrev pub IsClient : Bytes → ℤ → History → Built → History → Type 0
IsClient host port h (built s) h' =
    let address = sock_address port (some host) in
    (ltb_ℤ s.sockid (pos 0) ≡ false)
    × (s.address ≡ some address)
    × (r : ℤ) × (ltb_ℤ r (pos 0) ≡ false)
    × (h' ≡ (connect_to s.sockid address, r) ∷ (open_stream, s.sockid) ∷ h)
IsClient host port h (thrown c) h' = (open_fds h' ≡ open_fds h) × ((c ≡ negsuc 9) ⊎ (c ≡ negsuc 29))

-- The constructor of a client's socket either builds a socket that is connected to the address, by
-- one successful call after the one that opened its descriptor, or it throws with -10 or -30 and
-- leaves the descriptors open that were open before, and no other.
pub client_socket-IsClient :
    (host : Bytes) (port : ℤ) (sys : System) (h : History)
    → let (b, h') = client_socket host port sys h in IsClient host port h b h'
unfolding client_socket new_socket connect finish destroy set_sock_addr
client_socket-IsClient host port sys h =
    let fd = (sys h open_stream).value in
    let h1 = (open_stream, fd) ∷ h in
    let to = connect_to fd (sock_address port (some host)) in
    let r = (sys h1 to).value in
    elim (Bool-cases (ltb_ℤ fd (pos 0))) [
      | inl t ↦ rw (client_socket, t, finish) (given_back fd (pos 0) h, inl refl)
      | inr f ↦ elim (Bool-cases (ltb_ℤ r (pos 0))) [
        | inl t ↦ rw (client_socket, f, t, finish) (given_back fd (pos 0) h, inr refl)
        | inr g ↦ rw (client_socket, f, g, finish, g) (f, refl, r, g, refl)
      ]
    ]
