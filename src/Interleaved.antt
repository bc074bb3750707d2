-- ===== src/Interleaved.antt =====
-- The three threads of a single scan, src/get_single_scan.cpp, src/abort_listener.cpp and the reporter
-- of src/acquisition_reporter.cpp, step by step: an interleaving is a sequence of steps, each of one
-- thread between its waits. A thread that is not ready makes no step. The camera and the client of
-- the abort socket may answer at any time. What the threads send, and the failed tries of the reporter
-- to lock, change no shared state and are left out.
pub mod Kept
pub mod Hang
pub mod Progress
pub mod Safe
mod Tests
use andor2k.Base.{◌≡◌, Bool, true, false, not, if◌then◌else◌, ℤ, pos, negsuc, eqb_ℤ, ltb_ℤ}

-- Where get_single_scan stands: before the wait for the number of the abort socket, and so on.
pub data MainAt : Type 0 where
  awaiting_fd starting locking spawning acquiring unlocking closing : MainAt
  joining_reporter closing_early joining_listener returned : MainAt

-- Where abort_listener stands.
pub data ListenerAt : Type 0 where
  beginning locking_abort opening publishing failing unlocking_abort unlocking_failed : ListenerAt
  accepting receiving cancelling ended : ListenerAt

-- Where the reporter stands: at its test of the exposure, at its tries to lock, and so on.
pub data ReporterAt : Type 0 where
  absent entered trying reporter_locked reporter_ended : ReporterAt

-- Who holds g_mtx.
pub data Holder : Type 0 where
  nobody by_main by_reporter : Holder

-- The socket of the listener: none, open with its number, or shut down.
pub data AbortSocket : Type 0 where
  no_socket : AbortSocket
  open_socket : ℤ → AbortSocket
  shut_socket : AbortSocket

pub record System : Type 0 where
  pub main : MainAt
  pub listener : ListenerAt
  pub reporter : ReporterAt
  pub g_mtx : Holder
  -- whether the listener holds g_mtx_abort; get_single_scan holds it within a step only
  pub g_mtx_abort : Bool
  pub abort_socket_fd : ℤ
  pub abort_socket : AbortSocket
  pub abort_set : Bool

-- `abort_socket_fd = -100`
abbrev pub unset_fd : ℤ
unset_fd = negsuc 99

-- The condition of the wait, `return abort_socket_fd`.
abbrev pub fd_condition : ℤ → Bool
fd_condition fd = not (eqb_ℤ fd (pos 0))

-- `shutdown(fd, 2)`: only the socket with that number is shut down.
abbrev pub shutdown : ℤ → AbortSocket → AbortSocket
shutdown fd (open_socket n) = if eqb_ℤ fd n then shut_socket else open_socket n
shutdown fd s = s

abbrev pub sockid : AbortSocket → ℤ
sockid (open_socket n) = n
sockid _ = negsuc 0

-- Who makes a step.
pub data Actor : Type 0 where
  program camera client : Actor

-- get_single_scan is started, and the listener's thread with it.
abbrev pub begun : System
begun = record {
  main = awaiting_fd;
  listener = beginning;
  reporter = absent;
  g_mtx = nobody;
  g_mtx_abort = false;
  abort_socket_fd = unset_fd;
  abort_socket = no_socket;
  abort_set = false;
}

-- The steps, with the condition that get_single_scan waits for as a parameter.
pub data Step (ready : ℤ → Bool) : Actor → System → System → Type 0 where
  awaited :
      (s : System)
      → s.main ≡ awaiting_fd
      → s.g_mtx_abort ≡ false
      → ready s.abort_socket_fd ≡ true
      → Step ready program s (record s { main = starting })
  started : (s : System) → s.main ≡ starting → Step ready camera s (record s { main = locking })
  not_started :
      (s : System) → s.main ≡ starting → Step ready camera s (record s { main = closing_early })
  main_locks :
      (s : System)
      → s.main ≡ locking
      → s.g_mtx ≡ nobody
      → Step ready program s (record s { main = spawning; g_mtx = by_main })
  reporter_spawned :
      (s : System)
      → s.main ≡ spawning
      → Step ready program s (record s { main = acquiring; reporter = entered })
  acquired : (s : System) → s.main ≡ acquiring → Step ready camera s (record s { main = unlocking })
  main_unlocks :
      (s : System)
      → s.main ≡ unlocking
      → Step ready program s (record s { main = closing; g_mtx = nobody })
  shuts_down :
      (s : System)
      → s.main ≡ closing
      → Step ready program s (record s {
        main = joining_reporter;
        abort_socket = shutdown s.abort_socket_fd s.abort_socket;
      })
  shuts_down_early :
      (s : System)
      → s.main ≡ closing_early
      → Step ready program s (record s {
        main = joining_listener;
        abort_socket = shutdown s.abort_socket_fd s.abort_socket;
      })
  joins_reporter :
      (s : System)
      → s.main ≡ joining_reporter
      → s.reporter ≡ reporter_ended
      → Step ready program s (record s { main = joining_listener })
  joins_listener :
      (s : System)
      → s.main ≡ joining_listener
      → s.listener ≡ ended
      → Step ready program s (record s { main = returned })
  reporter_begins :
      (s : System) → s.reporter ≡ entered → Step ready program s (record s { reporter = trying })
  -- A bias image, whose exposure is 0: the reporter takes no lock.
  reporter_skips :
      (s : System)
      → s.reporter ≡ entered
      → Step ready program s (record s { reporter = reporter_ended })
  reporter_locks :
      (s : System)
      → s.reporter ≡ trying
      → s.g_mtx ≡ nobody
      → Step ready program s (record s { reporter = reporter_locked; g_mtx = by_reporter })
  reporter_unlocks :
      (s : System)
      → s.reporter ≡ reporter_locked
      → Step ready program s (record s { reporter = reporter_ended; g_mtx = nobody })
  resets :
      (s : System)
      → s.listener ≡ beginning
      → Step ready program s (record s { listener = locking_abort; abort_set = false })
  locks_abort :
      (s : System)
      → s.listener ≡ locking_abort
      → s.g_mtx_abort ≡ false
      → Step ready program s (record s { listener = opening; g_mtx_abort = true })
  opens :
      (s : System) (fd : ℤ)
      → s.listener ≡ opening
      → ltb_ℤ fd (pos 0) ≡ false
      → Step ready program s (record s { listener = publishing; abort_socket = open_socket fd })
  throws :
      (s : System) → s.listener ≡ opening → Step ready program s (record s { listener = failing })
  publishes :
      (s : System)
      → s.listener ≡ publishing
      → Step ready program s
          (record s { listener = unlocking_abort; abort_socket_fd = sockid s.abort_socket })
  publishes_failure :
      (s : System)
      → s.listener ≡ failing
      → Step ready program s (record s { listener = unlocking_failed; abort_socket_fd = negsuc 0 })
  unlocks_abort :
      (s : System)
      → s.listener ≡ unlocking_abort
      → Step ready program s (record s { listener = accepting; g_mtx_abort = false })
  unlocks_failed :
      (s : System)
      → s.listener ≡ unlocking_failed
      → Step ready program s (record s { listener = ended; g_mtx_abort = false })
  -- `accept` gives a negative status on a socket that is shut down.
  not_accepted :
      (s : System)
      → s.listener ≡ accepting
      → s.abort_socket ≡ shut_socket
      → Step ready program s (record s { listener = ended; abort_socket = no_socket })
  -- `accept` gives a negative status for a connection that fails.
  connection_fails :
      (s : System)
      → s.listener ≡ accepting
      → Step ready client s (record s { listener = ended; abort_socket = no_socket })
  accepted :
      (s : System)
      → s.listener ≡ accepting
      → Step ready client s (record s { listener = receiving })
  closed_by_client :
      (s : System)
      → s.listener ≡ receiving
      → Step ready client s (record s { listener = ended; abort_socket = no_socket })
  received :
      (s : System)
      → s.listener ≡ receiving
      → Step ready client s (record s { listener = cancelling; abort_set = true })
  cancels_wait :
      (s : System)
      → s.listener ≡ cancelling
      → Step ready program s (record s { listener = ended; abort_socket = no_socket })

-- The states that steps lead to.
pub data Reach (ready : ℤ → Bool) (s : System) : System → Type 0 where
  here : Reach ready s s
  next : {a : Actor} {t u : System} → Reach ready s t → Step ready a t u → Reach ready s u
