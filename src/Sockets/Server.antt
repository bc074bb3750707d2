-- ===== src/Sockets/Server.antt =====
-- The socket of a server of src/cpp_socket.cpp.
use andor2k.Base.{
  ◌≡◌, refl, false, ◌∷◌, none, some, ℤ, pos, negsuc, ltb_ℤ, ◌⊎◌, inl, inr, Bool-cases,
}
use andor2k.Sockets.{
  open_stream, bind_to, listen_on, History, System, Built, built, thrown, finish, new_socket,
  sock_address, server_socket, server_listen, set_sock_addr, destroy, listen, bind,
}
use andor2k.Sockets.Descriptors.{open_fds, given_back}

-- The three calls of a server, of which the last two succeeded, or an exception with the status -10,
-- -30 or -40.
abbrev pub IsServer : ℤ → History → Built → History → Type 0
IsServer port h (built s) h' =
    let address = sock_address port none in
    (ltb_ℤ s.sockid (pos 0) ≡ false)
    × (s.address ≡ some address)
    × (r : ℤ) × (ltb_ℤ r (pos 0) ≡ false)
    × (q : ℤ) × (ltb_ℤ q (pos 0) ≡ false)
    × (h'
        ≡ (listen_on s.sockid (pos 5), q)
          ∷ (bind_to s.sockid address, r)
          ∷ (open_stream, s.sockid)
          ∷ h)
IsServer port h (thrown c) h' =
    (open_fds h' ≡ open_fds h) × ((c ≡ negsuc 9) ⊎ ((c ≡ negsuc 29) ⊎ (c ≡ negsuc 39)))

-- The constructor of a server's socket either opens a descriptor, binds it to the port of any host and
-- then listens with a queue of five, each with success, or it throws with -10, -30 or -40 and leaves
-- the descriptors open that were open before, and no other.
pub server_socket-IsServer :
    (port : ℤ) (sys : System) (h : History)
    → let (b, h') = server_socket port sys h in IsServer port h b h'
unfolding server_socket new_socket bind server_listen listen finish destroy set_sock_addr
server_socket-IsServer port sys h =
    let fd = (sys h open_stream).value in
    let h1 = (open_stream, fd) ∷ h in
    let to = bind_to fd (sock_address port none) in
    let r = (sys h1 to).value in
    let h2 = (to, r) ∷ h1 in
    let q = (sys h2 (listen_on fd (pos 5))).value in
    elim (Bool-cases (ltb_ℤ fd (pos 0))) [
      | inl t ↦ rw (server_socket, t, finish) (given_back fd (pos 0) h, inl refl)
      | inr f ↦ elim (Bool-cases (ltb_ℤ r (pos 0))) [
        | inl t ↦
            rw (server_socket, f, server_listen, t, finish)
              (given_back fd (pos 0) h, inr (inl refl))
        | inr g ↦ elim (Bool-cases (ltb_ℤ q (pos 0))) [
          | inl t ↦
              rw (server_socket, f, server_listen, g, t, finish)
                (given_back fd (pos 0) h, inr (inr refl))
          | inr k ↦
              rw (server_socket, f, server_listen, g, k, finish, k) (f, refl, r, g, q, k, refl)
        ]
      ]
    ]
