-- ===== src/Driver/Threads.antt =====
-- What the threads of src/get_single_scan.cpp, src/get_rta_scan.cpp and src/get_acquisition.cpp allow:
-- a mutex is locked only when it is free and unlocked only when it is held; a reporter is joined only
-- when the mutex is free, since it ends by locking it; a ThreadReporter is joined only when it is told
-- to stop. The abort listener is joined only when it no longer waits: a shutdown ends its wait where the
-- answer's flag says that it reached the listener, and does nothing where the number was not told yet or
-- a client is connected (Interleaved.Hang). Anything else blocks for ever or is undefined.
use andor2k.Base.{Bool, true, false, ◌&&◌, not, [], ◌∷◌, Option, none, some, ◌≡◌, sym, ap, ◌∙◌}
use andor2k.Driver.{
  join_progress, stop_progress, spawn_progress, Environment, Event, History, spawn_listener,
  shutdown_listener, join_listener, spawn_reporter, join_reporter, lock, unlock,
}

pub data Progress : Type 0 where
  absent reporting stopping : Progress

pub record Threads : Type 0 where
  pub locked : Bool
  pub reporter : Bool
  pub listener : Bool
  pub listening : Bool
  pub progress : Progress

-- Nothing runs and nothing is held.
abbrev pub quiet : Threads
quiet = record {
  locked = false;
  reporter = false;
  listener = false;
  listening = false;
  progress = absent;
}

abbrev pub allow : Bool → Threads → Option Threads
allow true t = some t
allow false t = none

-- The flag `stop_reporting_thread`, as the thread that runs sees it.
abbrev pub stop_step : Bool → Progress → Progress
stop_step b absent = absent
stop_step true _ = stopping
stop_step false _ = reporting

abbrev pub is_absent : Progress → Bool
is_absent absent = true
is_absent _ = false

abbrev pub is_stopping : Progress → Bool
is_stopping stopping = true
is_stopping _ = false

-- The Boolean says whether a shutdown reaches the listener.
abbrev pub thread_step : Bool → Event → Threads → Option Threads
thread_step b lock t = allow (not t.locked) (record t { locked = true })
thread_step b unlock t = allow t.locked (record t { locked = false })
thread_step b spawn_reporter t = allow (not t.reporter) (record t { reporter = true })
thread_step b join_reporter t = allow (t.reporter && not t.locked) (record t { reporter = false })
thread_step b spawn_listener t =
    allow (not t.listener) (record t { listener = true; listening = true })
thread_step b shutdown_listener t = some (record t { listening = t.listening && not b })
thread_step b join_listener t =
    allow (t.listener && not t.listening) (record t { listener = false })
thread_step b (spawn_progress _ _ _) t =
    allow (is_absent t.progress) (record t { progress = reporting })
thread_step b (stop_progress c) t = some (record t { progress = stop_step c t.progress })
thread_step b join_progress t = allow (is_stopping t.progress) (record t { progress = absent })
thread_step b _ t = some t

abbrev pub after : Bool → Event → Option Threads → Option Threads
after b e none = none
after b e (some t) = thread_step b e t

-- The threads after a history that begins with nothing running; `none` where it is not allowed.
abbrev pub replay : (History → Bool) → History → Option Threads
replay reaches [] = some quiet
replay reaches (e ∷ h) = after (reaches h) e (replay reaches h)

-- Whether a shutdown at this point reaches the listener, by the environment's answer.
abbrev reach_of : Environment → History → Bool
reach_of env h = (env h shutdown_listener).flag

-- A history that is allowed, after which nothing runs and nothing is held.
abbrev pub IsQuiet : Environment → History → Type 0
IsQuiet env h = replay (reach_of env) h ≡ some quiet

-- After each shutdown the listener waits no more: it waited for a connection on the socket with that
-- number, or it had ended. What the code does not see to is that it is so.
abbrev pub IsReached : Environment → Type 0
IsReached env = (h : History) → reach_of env h ≡ true

-- The threads after a history in which each shutdown reaches the listener.
abbrev pub replay_reached : History → Option Threads
replay_reached h = replay (λ h'. true) h

abbrev pub IsOrderly : History → Type 0
IsOrderly h = replay_reached h ≡ some quiet

replay_lem :
    (env : Environment) (h : History) → IsReached env → replay (reach_of env) h ≡ replay_reached h
replay_lem env h reached = ap (λ (r : History → Bool). replay r h) (λ i h'. reached h' i)

-- What is shown of histories in which each shutdown reaches the listener holds where it does.
pub orderly-IsQuiet :
    (env : Environment) (h h' : History)
    → IsReached env
    → (IsOrderly h → IsOrderly h')
    → IsQuiet env h
    → IsQuiet env h'
orderly-IsQuiet env h h' reached f q =
    replay_lem env h' reached ∙ f (sym (replay_lem env h reached) ∙ q)
