-- ===== src/Interleaved/Progress.antt =====
-- Where a single scan may come to a halt, with the condition that get_single_scan waits for.
use andor2k.Base.{pos, Bool-cases, ◌≡◌, ◌≢◌, ◌⊎◌, inl, inr, refl, true, false, arith, ℤ}
use andor2k.Interleaved.{
  program, camera, ReporterAt, absent, entered, trying, reporter_locked, reporter_ended, MainAt,
  awaiting_fd, starting, locking, spawning, acquiring, unlocking, closing, joining_reporter,
  closing_early, joining_listener, returned, ListenerAt, beginning, locking_abort, opening,
  publishing, failing, unlocking_abort, unlocking_failed, accepting, receiving, cancelling, ended,
  AbortSocket, shut_socket, System, begun, Step, awaited, started, main_locks, reporter_spawned,
  acquired, main_unlocks, shuts_down, shuts_down_early, joins_reporter, joins_listener,
  reporter_begins, fd_condition, no_socket, open_socket, reporter_locks, reporter_unlocks, resets,
  locks_abort, throws, publishes, publishes_failure, unlocks_abort, unlocks_failed, not_accepted,
  cancels_wait, Reach,
}
use andor2k.Interleaved.Kept.{IsKept, Reach-IsKept}
use andor2k.Interleaved.Safe.{IsSafe, Reach-IsSafe}

-- The program or the camera has a step.
abbrev pub Goes : System → Type 0
Goes s =
    ((t : System) × Step fd_condition program s t) ⊎ ((t : System) × Step fd_condition camera s t)

-- get_single_scan waits for the number of a socket that is 0: its condition takes it for no number.
pub record IsUntold (s : System) : Type 0 where
  pub main_awaits : s.main ≡ awaiting_fd
  pub number : s.abort_socket_fd ≡ pos 0
  pub listener_past : (s.listener ≡ accepting) ⊎ (s.listener ≡ ended)

-- get_single_scan waits for the listener, whose socket it has not shut down.
pub record IsMissed (s : System) : Type 0 where
  pub main_joins : s.main ≡ joining_listener
  pub listener_accepts : s.listener ≡ accepting
  pub socket_open : (n : ℤ) × (s.abort_socket ≡ open_socket n)

-- There is a step, or the client that is connected to the abort socket is to send a message or to close,
-- or get_single_scan waits for what does not come without a client.
abbrev pub IsLive : System → Type 0
IsLive s = Goes s ⊎ ((s.listener ≡ receiving) ⊎ (IsUntold s ⊎ IsMissed s))

abbrev by_program : {s t : System} → Step fd_condition program s t → IsLive s
by_program {s} {t} st = inl (inl (t, st))

abbrev by_camera : {s t : System} → Step fd_condition camera s t → IsLive s
by_camera {s} {t} st = inl (inr (t, st))

number_zero : (fd : ℤ) → fd_condition fd ≡ false → fd ≡ pos 0
number_zero fd h = ground arith

module _ (s : System) (v : IsSafe s) (w : IsKept s) where
  -- Where the listener is before its wait for a connection, it has a step.
  untold :
      (l : ListenerAt)
      → s.listener ≡ l
      → s.main ≡ awaiting_fd
      → fd_condition s.abort_socket_fd ≡ false
      → IsLive s
  untold beginning e m f = by_program (resets s e)
  untold locking_abort e m f = by_program (locks_abort s e (ground arith))
  untold opening e m f = by_program (throws s e)
  untold publishing e m f = by_program (publishes s e)
  untold failing e m f = by_program (publishes_failure s e)
  untold unlocking_abort e m f = by_program (unlocks_abort s e)
  untold unlocking_failed e m f = by_program (unlocks_failed s e)
  untold accepting e m f = inr (
      inr (
        inl (record {
          main_awaits = m;
          number = number_zero s.abort_socket_fd f;
          listener_past = inl e;
        })))
  untold receiving e m f = inr (inl e)
  untold cancelling e m f = by_program (cancels_wait s e)
  untold ended e m f = inr (
      inr (
        inl (record {
          main_awaits = m;
          number = number_zero s.abort_socket_fd f;
          listener_past = inr e;
        })))

  told :
      (l : ListenerAt)
      → s.listener ≡ l
      → s.main ≡ awaiting_fd
      → fd_condition s.abort_socket_fd ≡ true
      → IsLive s
  told opening e m f = by_program (throws s e)
  told publishing e m f = by_program (publishes s e)
  told failing e m f = by_program (publishes_failure s e)
  told unlocking_abort e m f = by_program (unlocks_abort s e)
  told unlocking_failed e m f = by_program (unlocks_failed s e)
  told _ e m f = by_program (awaited s m (ground arith) f)

  reporter_live : (r : ReporterAt) → s.reporter ≡ r → s.main ≡ joining_reporter → IsLive s
  reporter_live absent e m = absurd (ground arith)
  reporter_live entered e m = by_program (reporter_begins s e)
  reporter_live trying e m = by_program (reporter_locks s e (ground arith))
  reporter_live reporter_locked e m = by_program (reporter_unlocks s e)
  reporter_live reporter_ended e m = by_program (joins_reporter s m e)

  accepting_live :
      (k : AbortSocket)
      → s.abort_socket ≡ k
      → s.main ≡ joining_listener
      → s.listener ≡ accepting
      → IsLive s
  accepting_live no_socket k m e = absurd (ground arith)
  accepting_live (open_socket n) k m e =
      inr (inr (inr (record { main_joins = m; listener_accepts = e; socket_open = (n, k) })))
  accepting_live shut_socket k m e = by_program (not_accepted s e k)

  listener_live : (l : ListenerAt) → s.listener ≡ l → s.main ≡ joining_listener → IsLive s
  listener_live beginning e m = by_program (resets s e)
  listener_live locking_abort e m = by_program (locks_abort s e (ground arith))
  listener_live opening e m = by_program (throws s e)
  listener_live publishing e m = by_program (publishes s e)
  listener_live failing e m = by_program (publishes_failure s e)
  listener_live unlocking_abort e m = by_program (unlocks_abort s e)
  listener_live unlocking_failed e m = by_program (unlocks_failed s e)
  listener_live accepting e m = accepting_live s.abort_socket refl m e
  listener_live receiving e m = inr (inl e)
  listener_live cancelling e m = by_program (cancels_wait s e)
  listener_live ended e m = by_program (joins_listener s m e)

  main_live : (m : MainAt) → s.main ≡ m → s.main ≢ returned → IsLive s
  main_live awaiting_fd e n = elim (Bool-cases (fd_condition s.abort_socket_fd)) [
    | inl f ↦ told s.listener refl e f
    | inr f ↦ untold s.listener refl e f
  ]
  main_live starting e n = by_camera (started s e)
  main_live locking e n = by_program (main_locks s e (ground arith))
  main_live spawning e n = by_program (reporter_spawned s e)
  main_live acquiring e n = by_camera (acquired s e)
  main_live unlocking e n = by_program (main_unlocks s e)
  main_live closing e n = by_program (shuts_down s e)
  main_live joining_reporter e n = reporter_live s.reporter refl e
  main_live closing_early e n = by_program (shuts_down_early s e)
  main_live joining_listener e n = listener_live s.listener refl e
  main_live returned e n = absurd (n e)

-- With the condition of the code, in every interleaving, before get_single_scan has returned: the
-- program or the camera has a step, or a client is connected to the abort socket and is to send a message
-- or to close, or get_single_scan is at one of two waits: for the number of a socket that is 0, or for
-- the end of a listener that waits for a connection on a socket that is still open.
pub Reach-IsLive : {s : System} → Reach fd_condition begun s → s.main ≢ returned → IsLive s
Reach-IsLive {s} r n =
    main_live s (Reach-IsSafe fd_condition r) (Reach-IsKept fd_condition r) s.main refl n
