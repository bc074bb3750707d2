-- ===== src/Scan/Wait.antt =====
-- The wait of src/get_rta_scan.cpp for a new image.
use andor2k.Base.{true, ◌*◌, ℕ, zero, suc, ◌+◌, ◌≤◌, ◌≡◌, Bool, ◌∷◌, arith}
use andor2k.Driver.{M, Environment, History, Status, call, sleep, read_clock, get_number_new_images}
use andor2k.Driver.Clock.{slept, Punctual}
use andor2k.Scan.{wait_new_data, max_polls, poll}

-- What a poll does next does not matter where the time is over, and else only what it does then.
poll_late :
    (rest rest' : M Bool) (s : Status) (env : Environment) (h : History)
    → (env (sleep 1 ∷ h) read_clock).flag ≡ true
    → poll rest s env h ≡ poll rest' s env h
unfolding poll
poll_late rest rest' s env h late = ground arith

poll_next :
    (rest rest' : M Bool) (s : Status) (env : Environment) (h : History)
    → rest env (read_clock ∷ sleep 1 ∷ h) ≡ rest' env (read_clock ∷ sleep 1 ∷ h)
    → poll rest s env h ≡ poll rest' s env h
unfolding poll
poll_next rest rest' s env h same = ground arith

more_polls :
    (limit polls more : ℕ) (env : Environment) (h : History)
    → Punctual env limit
    → limit ≤ slept h + suc polls
    → polls ≤ more
    → wait_new_data (suc more) env h ≡ wait_new_data (suc polls) env h
unfolding wait_new_data
more_polls limit zero more env h p enough le =
    let h1 = call get_number_new_images ∷ h in
    poll_late _ _ _ env h1 (p (sleep 1 ∷ h1) (omega arith))
more_polls limit (suc polls) zero env h p enough le = absurd (omega arith)
more_polls limit (suc polls) (suc more) env h p enough le =
    let h1 = call get_number_new_images ∷ h in
    poll_next _ _ _ env h1
      (more_polls limit polls more env (read_clock ∷ sleep 1 ∷ h1) p (omega arith) (omega arith))

-- With a clock that says that the time is over once eleven seconds have been slept, the wait does the
-- same with any number of polls from `max_polls` on: it ends before it runs out of them.
pub wait_new_data_enough :
    (polls : ℕ) (env : Environment) (h : History)
    → Punctual env (slept h + 11 * 1000)
    → max_polls ≤ polls
    → wait_new_data polls env h ≡ wait_new_data max_polls env h
wait_new_data_enough zero env h p le = absurd (omega arith)
wait_new_data_enough (suc polls) env h p le =
    more_polls (slept h + 11 * 1000) 10999 polls env h p (omega arith) (omega arith)
