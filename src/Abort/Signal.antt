-- ===== src/Abort/Signal.antt =====
-- What the abort listener of src/abort_listener.cpp leaves behind.
use andor2k.Base.{◌∷◌, [], ℕ, ◌+◌, ◌≡◌, Bool, true, false, Option, none, some, arith, if◌then◌else◌}
use andor2k.Driver.{
  Event, Environment, History, call, cancel_wait, set_abort, lock_abort, unlock_abort, notify_abort,
}
use andor2k.Abort.{abort_listener}

-- Of a history: `abort_set`, whether g_mtx_abort is held, how often the waiting thread was notified and
-- how often CancelWait was called. A lock of a held mutex and an unlock of a free one are not allowed.
pub record Shared : Type 0 where
  pub abort_set : Bool
  pub held : Bool
  pub notified : ℕ
  pub cancelled : ℕ

abbrev pub shared_step : Event → Shared → Option Shared
shared_step (set_abort b) s = some (record s { abort_set = b })
shared_step lock_abort s = if s.held then none else some (record s { held = true })
shared_step unlock_abort s = if s.held then some (record s { held = false }) else none
shared_step notify_abort s = some (record s { notified = s.notified + 1 })
shared_step (call cancel_wait) s = some (record s { cancelled = s.cancelled + 1 })
shared_step _ s = some s

abbrev pub shared_after : Event → Option Shared → Option Shared
shared_after e none = none
shared_after e (some s) = shared_step e s

-- The shared state before `h` is `start`, which is that before the thread is started.
abbrev pub shared : Shared → History → Option Shared
shared start [] = some start
shared start (e ∷ h) = shared_after e (shared start h)

-- Whether the last event is the call of CancelWait.
abbrev pub ends_cancelled : History → Bool
ends_cancelled (call cancel_wait ∷ h) = true
ends_cancelled _ = false

-- Begun with the mutex free, the listener locks and unlocks it once each, in this order, notifies once,
-- and ends with abort_set at 1 exactly if it has called CancelWait last, which it calls at most once.
pub shared-abort_listener :
    (start : Shared) (env : Environment)
    → start.held ≡ false
    → let h = (abort_listener env []).1 in
      let b = ends_cancelled h in
      shared start h
      ≡ some (record {
        abort_set = b;
        held = false;
        notified = start.notified + 1;
        cancelled = start.cancelled + (if b then 1 else 0);
      })
unfolding abort_listener
shared-abort_listener start env free = ground arith
