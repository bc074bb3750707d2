-- ===== src/Interleaved/Tests.antt =====
-- Some interleavings of a single scan.
use andor2k.Base.{◌≡◌, refl, false, pos, arith}
use andor2k.Interleaved.{
  System, Actor, client, begun, starting, locking_abort, fd_condition, Step, Reach, here, next,
  awaited, resets,
}
use andor2k.Interleaved.Safe
use andor2k.Interleaved.Hang
use andor2k.Interleaved.Progress

abbrev resetting : System
resetting = record begun { listener = locking_abort; abort_set = false }

abbrev gone_on : System
gone_on = record resetting { main = starting }

to_gone_on : Reach fd_condition begun gone_on
to_gone_on = next (next here (resets begun refl)) (awaited resetting refl refl refl)

Reach-IsSafe_example : Safe.IsSafe gone_on
Reach-IsSafe_example = Safe.Reach-IsSafe fd_condition to_gone_on

fresh : Hang.IsFresh begun
fresh = record {
  main_at = refl;
  listener_at = refl;
  mutex_free = refl;
  fd_unset = refl;
  not_spawned = refl;
}

fd_condition-IsHung_example :
    (t : System) × Reach fd_condition begun t
    × Hang.IsHung t
    × ((a : Actor) (u : System) → Step fd_condition a t u → a ≡ client)
fd_condition-IsHung_example = Hang.fd_condition-IsHung begun fresh (pos 3) refl

Reach-IsLive_example : Progress.IsLive gone_on
Reach-IsLive_example = Progress.Reach-IsLive to_gone_on (λ e. ground arith)
