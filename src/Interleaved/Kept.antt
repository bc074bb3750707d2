-- ===== src/Interleaved/Kept.antt =====
-- That the listener has its socket where it waits for a connection.
use andor2k.Base.{◌≡◌, refl, Bool, true, false, arith, ℤ}
use andor2k.Interleaved.{
  ListenerAt, publishing, unlocking_abort, accepting, AbortSocket, no_socket, open_socket,
  shut_socket, System, shutdown, Actor, begun, Step, shuts_down, shuts_down_early, Reach, here,
  next, awaited, started, not_started, main_locks, reporter_spawned, acquired, main_unlocks,
  joins_reporter, joins_listener, reporter_begins, reporter_skips, reporter_locks, reporter_unlocks,
  resets, locks_abort, opens, throws, publishes, publishes_failure, unlocks_abort, unlocks_failed,
  not_accepted, connection_fails, accepted, closed_by_client, received, cancels_wait,
}

-- The listener has its socket.
abbrev keeps_socket : ListenerAt → Bool
keeps_socket publishing = true
keeps_socket unlocking_abort = true
keeps_socket accepting = true
keeps_socket _ = false

abbrev has_socket : AbortSocket → Bool
has_socket no_socket = false
has_socket _ = true

abbrev pub IsKept : System → Type 0
IsKept s = keeps_socket s.listener ≡ true → has_socket s.abort_socket ≡ true

shutdown_kept : (fd : ℤ) (s : AbortSocket) → has_socket (shutdown fd s) ≡ has_socket s
shutdown_kept fd (open_socket n) = ground arith
shutdown_kept fd no_socket = refl
shutdown_kept fd shut_socket = refl

module _ (ready : ℤ → Bool) where
  Step-IsKept : {a : Actor} {s t : System} → Step ready a s t → IsKept s → IsKept t
  Step-IsKept (shuts_down s m) v = λ l. rw shutdown_kept (v l)
  Step-IsKept (shuts_down_early s m) v = λ l. rw shutdown_kept (v l)
  Step-IsKept (awaited s m f r) v = ground arith
  Step-IsKept (started s m) v = ground arith
  Step-IsKept (not_started s m) v = ground arith
  Step-IsKept (main_locks s m f) v = ground arith
  Step-IsKept (reporter_spawned s m) v = ground arith
  Step-IsKept (acquired s m) v = ground arith
  Step-IsKept (main_unlocks s m) v = ground arith
  Step-IsKept (joins_reporter s m r) v = ground arith
  Step-IsKept (joins_listener s m l) v = ground arith
  Step-IsKept (reporter_begins s l) v = ground arith
  Step-IsKept (reporter_skips s l) v = ground arith
  Step-IsKept (reporter_locks s r f) v = ground arith
  Step-IsKept (reporter_unlocks s l) v = ground arith
  Step-IsKept (resets s l) v = ground arith
  Step-IsKept (locks_abort s l f) v = ground arith
  Step-IsKept (opens s fd l p) v = ground arith
  Step-IsKept (throws s l) v = ground arith
  Step-IsKept (publishes s l) v = ground arith
  Step-IsKept (publishes_failure s l) v = ground arith
  Step-IsKept (unlocks_abort s l) v = ground arith
  Step-IsKept (unlocks_failed s l) v = ground arith
  Step-IsKept (not_accepted s l k) v = ground arith
  Step-IsKept (connection_fails s l) v = ground arith
  Step-IsKept (accepted s l) v = ground arith
  Step-IsKept (closed_by_client s l) v = ground arith
  Step-IsKept (received s l) v = ground arith
  Step-IsKept (cancels_wait s l) v = ground arith

  pub Reach-IsKept : {s : System} → Reach ready begun s → IsKept s
  Reach-IsKept here = ground arith
  Reach-IsKept (next r st) = Step-IsKept st (Reach-IsKept r)
