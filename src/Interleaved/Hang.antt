-- ===== src/Interleaved/Hang.antt =====
-- That a single scan may come to a halt with the condition that get_single_scan waits for.
use andor2k.Base.{pos, ◌≡◌, refl, true, false, arith, ℤ, ltb_ℤ}
use andor2k.Interleaved.{
  absent, fd_condition, client, awaiting_fd, starting, closing_early, joining_listener, beginning,
  locking_abort, opening, publishing, unlocking_abort, accepting, open_socket, System, unset_fd,
  shutdown, Actor, Step, awaited, started, not_started, main_locks, reporter_spawned, acquired,
  main_unlocks, shuts_down, shuts_down_early, joins_reporter, joins_listener, reporter_begins,
  reporter_skips, reporter_locks, reporter_unlocks, resets, locks_abort, opens, throws, publishes,
  publishes_failure, unlocks_abort, unlocks_failed, not_accepted, connection_fails, accepted,
  closed_by_client, received, cancels_wait, Reach, here, next,
}

-- get_single_scan waits for the end of the listener, which waits for a connection.
pub record IsHung (s : System) : Type 0 where
  pub main_waits : s.main ≡ joining_listener
  pub listener_waits : s.listener ≡ accepting
  pub socket_open : (n : ℤ) × (s.abort_socket ≡ open_socket n)
  pub no_reporter : s.reporter ≡ absent

Step-IsHung : {a : Actor} {s t : System} → Step fd_condition a s t → IsHung s → a ≡ client
Step-IsHung (awaited s m f r) h = absurd (ground (arith, h.main_waits))
Step-IsHung (started s m) h =
    absurd (ground (arith, h.main_waits, h.listener_waits, h.socket_open.1, h.no_reporter))
Step-IsHung (not_started s m) h =
    absurd (ground (arith, h.main_waits, h.listener_waits, h.socket_open.1, h.no_reporter))
Step-IsHung (main_locks s m f) h =
    absurd (ground (arith, h.main_waits, h.listener_waits, h.socket_open.1, h.no_reporter))
Step-IsHung (reporter_spawned s m) h =
    absurd (ground (arith, h.main_waits, h.listener_waits, h.socket_open.1, h.no_reporter))
Step-IsHung (acquired s m) h =
    absurd (ground (arith, h.main_waits, h.listener_waits, h.socket_open.1, h.no_reporter))
Step-IsHung (main_unlocks s m) h =
    absurd (ground (arith, h.main_waits, h.listener_waits, h.socket_open.1, h.no_reporter))
Step-IsHung (shuts_down s m) h =
    absurd (ground (arith, h.main_waits, h.listener_waits, h.socket_open.1, h.no_reporter))
Step-IsHung (shuts_down_early s m) h =
    absurd (ground (arith, h.main_waits, h.listener_waits, h.socket_open.1, h.no_reporter))
Step-IsHung (joins_reporter s m r) h =
    absurd (ground (arith, h.main_waits, h.listener_waits, h.socket_open.1, h.no_reporter))
Step-IsHung (joins_listener s m l) h =
    absurd (ground (arith, h.main_waits, h.listener_waits, h.socket_open.1, h.no_reporter))
Step-IsHung (reporter_begins s r) h =
    absurd (ground (arith, h.main_waits, h.listener_waits, h.socket_open.1, h.no_reporter))
Step-IsHung (reporter_skips s r) h =
    absurd (ground (arith, h.main_waits, h.listener_waits, h.socket_open.1, h.no_reporter))
Step-IsHung (reporter_locks s r f) h =
    absurd (ground (arith, h.main_waits, h.listener_waits, h.socket_open.1, h.no_reporter))
Step-IsHung (reporter_unlocks s r) h =
    absurd (ground (arith, h.main_waits, h.listener_waits, h.socket_open.1, h.no_reporter))
Step-IsHung (resets s l) h =
    absurd (ground (arith, h.main_waits, h.listener_waits, h.socket_open.1, h.no_reporter))
Step-IsHung (locks_abort s l f) h =
    absurd (ground (arith, h.main_waits, h.listener_waits, h.socket_open.1, h.no_reporter))
Step-IsHung (opens s fd l p) h =
    absurd (ground (arith, h.main_waits, h.listener_waits, h.socket_open.1, h.no_reporter))
Step-IsHung (throws s l) h =
    absurd (ground (arith, h.main_waits, h.listener_waits, h.socket_open.1, h.no_reporter))
Step-IsHung (publishes s l) h =
    absurd (ground (arith, h.main_waits, h.listener_waits, h.socket_open.1, h.no_reporter))
Step-IsHung (publishes_failure s l) h =
    absurd (ground (arith, h.main_waits, h.listener_waits, h.socket_open.1, h.no_reporter))
Step-IsHung (unlocks_abort s l) h =
    absurd (ground (arith, h.main_waits, h.listener_waits, h.socket_open.1, h.no_reporter))
Step-IsHung (unlocks_failed s l) h =
    absurd (ground (arith, h.main_waits, h.listener_waits, h.socket_open.1, h.no_reporter))
Step-IsHung (not_accepted s l k) h =
    absurd (ground (arith, h.main_waits, h.listener_waits, h.socket_open.1, h.no_reporter))
Step-IsHung (cancels_wait s l) h =
    absurd (ground (arith, h.main_waits, h.listener_waits, h.socket_open.1, h.no_reporter))
Step-IsHung (connection_fails s l) h = refl
Step-IsHung (accepted s l) h = refl
Step-IsHung (closed_by_client s l) h = refl
Step-IsHung (received s l) h = refl

-- Nothing of the listener has been done yet, and get_single_scan is at its wait.
pub record IsFresh (s : System) : Type 0 where
  pub main_at : s.main ≡ awaiting_fd
  pub listener_at : s.listener ≡ beginning
  pub mutex_free : s.g_mtx_abort ≡ false
  pub fd_unset : s.abort_socket_fd ≡ unset_fd
  pub not_spawned : s.reporter ≡ absent

-- The acquisition cannot be started before the listener has opened its socket.
module _ (s : System) (v : IsFresh s) (n : ℤ) (fits : ltb_ℤ n (pos 0) ≡ false) where
  abbrev halted : System
  halted = record s {
    main = joining_listener;
    listener = accepting;
    g_mtx_abort = false;
    abort_socket_fd = n;
    abort_socket = open_socket n;
    abort_set = false;
  }

  abbrev gone_on : System
  gone_on = record s {
    main = joining_listener;
    abort_socket = shutdown s.abort_socket_fd s.abort_socket;
  }

  condition_holds : fd_condition s.abort_socket_fd ≡ true
  condition_holds = rw v.fd_unset refl

  goes_on : Reach fd_condition s gone_on
  goes_on =
      next
        (next (next here (awaited s v.main_at v.mutex_free condition_holds))
          (not_started (record s { main = starting }) refl))
        (shuts_down_early (record s { main = closing_early }) refl)

  halts : Reach fd_condition s halted
  halts =
      let t1 = record gone_on { listener = locking_abort; abort_set = false } in
      let t2 = record t1 { listener = opening; g_mtx_abort = true } in
      let t3 = record t2 { listener = publishing; abort_socket = open_socket n } in
      let t4 = record t3 { listener = unlocking_abort; abort_socket_fd = n } in
      next
        (next
          (next
            (next (next goes_on (resets gone_on v.listener_at)) (locks_abort t1 refl v.mutex_free))
            (opens t2 n refl fits))
          (publishes t3 refl))
        (unlocks_abort t4 refl)

  -- With the condition of the code, which holds from the start: from every state in which
  -- get_single_scan is at its wait and the listener has not begun, there is an interleaving to a state in
  -- which only a client that connects to the abort socket makes a step, and get_single_scan waits for
  -- the listener; the acquisition is not started in it, and the socket's number may be any.
  pub fd_condition-IsHung :
      (t : System) × Reach fd_condition s t
      × IsHung t
      × ((a : Actor) (u : System) → Step fd_condition a t u → a ≡ client)
  fd_condition-IsHung =
      let hung : IsHung halted = record {
        main_waits = refl;
        listener_waits = refl;
        socket_open = (n, refl);
        no_reporter = v.not_spawned;
      } in
      (halted, halts, hung, λ a u st. Step-IsHung st hung)
