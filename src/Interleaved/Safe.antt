-- ===== src/Interleaved/Safe.antt =====
-- Mutual exclusion, and what has ended when a single scan returns.
use andor2k.Base.{◌≡◌, Bool, true, false, ◌&&◌, arith, ℤ}
use andor2k.Interleaved.{
  ReporterAt, absent, reporter_locked, reporter_ended, Holder, nobody, by_main, by_reporter, MainAt,
  awaiting_fd, starting, locking, spawning, acquiring, unlocking, closing_early, joining_listener,
  returned, ListenerAt, opening, publishing, failing, unlocking_abort, unlocking_failed, ended,
  System, Actor, begun, Step, awaited, started, not_started, main_locks, reporter_spawned, acquired,
  main_unlocks, shuts_down, shuts_down_early, joins_reporter, joins_listener, reporter_begins,
  reporter_skips, reporter_locks, reporter_unlocks, resets, locks_abort, opens, throws, publishes,
  publishes_failure, unlocks_abort, unlocks_failed, not_accepted, connection_fails, accepted,
  closed_by_client, received, cancels_wait, Reach, here, next,
}

-- get_single_scan holds g_mtx.
abbrev pub holds : MainAt → Bool
holds spawning = true
holds acquiring = true
holds unlocking = true
holds _ = false

abbrev pub is_locked : ReporterAt → Bool
is_locked reporter_locked = true
is_locked _ = false

-- No reporter runs.
abbrev pub is_off : ReporterAt → Bool
is_off absent = true
is_off reporter_ended = true
is_off _ = false

abbrev pub is_absent : ReporterAt → Bool
is_absent absent = true
is_absent _ = false

abbrev pub is_ended : ListenerAt → Bool
is_ended ended = true
is_ended _ = false

abbrev pub holder : Bool → Bool → Holder
holder true _ = by_main
holder false true = by_reporter
holder false false = nobody

-- The reporter is not spawned yet, or runs or has run, or has ended.
abbrev pub reporter_fits : MainAt → ReporterAt → Bool
reporter_fits awaiting_fd r = is_absent r
reporter_fits starting r = is_absent r
reporter_fits locking r = is_absent r
reporter_fits spawning r = is_absent r
reporter_fits closing_early r = is_absent r
reporter_fits joining_listener r = is_off r
reporter_fits returned r = is_off r
reporter_fits _ absent = false
reporter_fits _ _ = true

-- The listener holds g_mtx_abort.
abbrev pub in_critical : ListenerAt → Bool
in_critical opening = true
in_critical publishing = true
in_critical failing = true
in_critical unlocking_abort = true
in_critical unlocking_failed = true
in_critical _ = false

abbrev pub listener_fits : MainAt → ListenerAt → Bool
listener_fits returned l = is_ended l
listener_fits _ l = true

pub record IsSafe (s : System) : Type 0 where
  pub apart : (holds s.main && is_locked s.reporter) ≡ false
  pub lock : s.g_mtx ≡ holder (holds s.main) (is_locked s.reporter)
  pub reporter_in : reporter_fits s.main s.reporter ≡ true
  pub listener_in : listener_fits s.main s.listener ≡ true
  pub abort_lock : s.g_mtx_abort ≡ in_critical s.listener

module _ (ready : ℤ → Bool) where
  Step-IsSafe : {a : Actor} {s t : System} → Step ready a s t → IsSafe s → IsSafe t
  Step-IsSafe (awaited s m f r) v = ground arith
  Step-IsSafe (started s m) v = ground arith
  Step-IsSafe (not_started s m) v = ground arith
  Step-IsSafe (main_locks s m f) v = ground arith
  Step-IsSafe (reporter_spawned s m) v = ground arith
  Step-IsSafe (acquired s m) v = ground arith
  Step-IsSafe (main_unlocks s m) v = ground arith
  Step-IsSafe (shuts_down s m) v = ground arith
  Step-IsSafe (shuts_down_early s m) v = ground arith
  Step-IsSafe (joins_reporter s m r) v = ground arith
  Step-IsSafe (joins_listener s m l) v = ground arith
  Step-IsSafe (reporter_begins s r) v = ground arith
  Step-IsSafe (reporter_skips s r) v = ground arith
  Step-IsSafe (reporter_locks s r f) v = ground arith
  Step-IsSafe (reporter_unlocks s r) v = ground arith
  Step-IsSafe (resets s l) v = ground arith
  Step-IsSafe (locks_abort s l f) v = ground arith
  Step-IsSafe (opens s fd l p) v = ground arith
  Step-IsSafe (throws s l) v = ground arith
  Step-IsSafe (publishes s l) v = ground arith
  Step-IsSafe (publishes_failure s l) v = ground arith
  Step-IsSafe (unlocks_abort s l) v = ground arith
  Step-IsSafe (unlocks_failed s l) v = ground arith
  Step-IsSafe (not_accepted s l k) v = ground arith
  Step-IsSafe (connection_fails s l) v = ground arith
  Step-IsSafe (accepted s l) v = ground arith
  Step-IsSafe (closed_by_client s l) v = ground arith
  Step-IsSafe (received s l) v = ground arith
  Step-IsSafe (cancels_wait s l) v = ground arith

  -- In every interleaving, whatever the condition of the wait: get_single_scan and the reporter never
  -- hold g_mtx at the same time, the mutexes are taken exactly while a thread holds them, no reporter
  -- runs before it is spawned, and when get_single_scan has returned, no reporter runs and the listener
  -- has ended.
  pub Reach-IsSafe : {s : System} → Reach ready begun s → IsSafe s
  Reach-IsSafe here = ground arith
  Reach-IsSafe (next r st) = Step-IsSafe st (Reach-IsSafe r)
