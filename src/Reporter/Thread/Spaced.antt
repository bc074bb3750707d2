-- ===== src/Reporter/Thread/Spaced.antt =====
-- How often the ThreadReporter of src/get_acquisition.cpp sends a message.
use native.Mathlib.Nat.{suc-mul, mul-le-mul_left}
use andor2k.Driver.{read_stop_reporting, read_thread_times}
use andor2k.Reporter.{percentage}
use andor2k.Base.{
  ap, ◌∙◌, if◌then◌else◌, if◌then◌else◌, ◌∷◌, [], ℕ, zero, suc, ◌+◌, ◌*◌, ◌≤◌, ◌<◌, ◌≡◌, refl,
  arith, ℤ, pos, pos_part, Bool-cases, inl, inr,
}
use andor2k.Driver.{Event, Environment, History, send_thread_progress}
use andor2k.Driver.Clock.{slept}
use andor2k.Timing.{exp2tick_every}
use andor2k.Timing.Tick.{max_exposure, exp2tick_every-IsTick}
use andor2k.Reporter.Thread.{
  exposure2tick_every, told_to_stop, thread_round, thread_rounds, thread_report,
}

abbrev reports_of : Event → ℕ
reports_of (send_thread_progress _ _) = 1
reports_of _ = 0

-- The messages of the reporter.
abbrev pub reports : History → ℕ
reports [] = 0
reports (e ∷ h) = reports_of e + reports h

same_tick : (n : ℤ) → exposure2tick_every n ≡ exp2tick_every n
unfolding exposure2tick_every exp2tick_every
same_tick n = refl

module _ (env : Environment) where
  told_to_stop_silent :
      (h : History)
      → (reports (told_to_stop env h).1 ≡ reports h) × (slept (told_to_stop env h).1 ≡ slept h)
  unfolding told_to_stop
  told_to_stop_silent h = elim (Bool-cases (env h read_stop_reporting).flag) [
    | inl t ↦ rw (t, told_to_stop) (omega arith, omega arith)
    | inr f ↦ rw (f, told_to_stop) (omega arith, omega arith)
  ]

  thread_round_lem :
      (every exposure total : ℤ) (h : History)
      → let (on, h') = thread_round every exposure total env h in
        (reports h' ≡ 1 + reports h) × (slept h' ≡ (if on then pos_part every else 0) + slept h)
  unfolding thread_round
  thread_round_lem every exposure total h =
      let times = env h read_thread_times in
      let h2 =
        send_thread_progress (percentage times.int1 exposure) (percentage times.int2 total)
        ∷ read_thread_times
        ∷ h in
      let (sent, time) = told_to_stop_silent h2 in
      elim (Bool-cases (told_to_stop env h2).0) [
        | inl t ↦ rw (t, thread_round) (omega (arith, sent), omega (arith, time))
        | inr f ↦ rw (f, thread_round) (omega (arith, sent), omega (arith, time))
      ]

  thread_rounds_lem :
      (every exposure total : ℤ) (rounds : ℕ) (h : History)
      → let h' = (thread_rounds every exposure total rounds env h).1 in
        (k : ℕ) × (j : ℕ) × (k ≤ j + 1)
        × (j ≤ rounds)
        × (reports h' ≡ k + reports h)
        × (slept h' ≡ j * pos_part every + slept h)
  unfolding thread_rounds
  thread_rounds_lem every exposure total zero h =
      (0, 0, omega arith, omega arith, omega arith, omega arith)
  thread_rounds_lem every exposure total (suc rounds) h =
      let (stopping, h1) = told_to_stop env h in
      let (silent, still) = told_to_stop_silent h in
      let (on, h2) = thread_round every exposure total env h1 in
      let (sent, time) = thread_round_lem every exposure total h1 in
      elim (Bool-cases stopping) [
        | inl t ↦ (
          0,
          0,
          omega arith,
          omega arith,
          rw (t, thread_rounds) (omega (arith, silent)),
          rw (t, thread_rounds) (omega (arith, still)),
        )
        | inr f ↦ elim (Bool-cases on) [
          | inl t ↦
              let (k, j, le, most, sent', time') =
                thread_rounds_lem every exposure total rounds h2 in
              (
                suc k,
                suc j,
                omega (arith, le),
                omega (arith, most),
                rw (f, thread_rounds, t) (omega (arith, sent', sent, silent)),
                rw (f, thread_rounds, t)
                    (omega (arith, time', rw t at time, still, suc-mul j (pos_part every))),
              )
          | inr g ↦ (
            1,
            0,
            omega arith,
            omega arith,
            rw (f, thread_rounds, g) (omega (arith, sent, silent)),
            rw (f, thread_rounds, g) (omega (arith, rw g at time, still)),
          )
        ]
      ]

-- For an exposure of half a second at least, up to the greatest for which the number of ticks is an
-- `int`, the messages of a ThreadReporter are a quarter of a second apart at least: 250 milliseconds
-- for each message but the last are slept.
pub thread_report-spaced :
    (n : ℕ) (total : ℤ) (rounds : ℕ) (env : Environment)
    → 500 ≤ n
    → n < max_exposure
    → let h' = (thread_report rounds (pos n) total env []).1 in reports h' * 250 ≤ slept h' + 250
unfolding thread_report
thread_report-spaced n total rounds env lo hi =
    let (t, e, least, _, _) = exp2tick_every-IsTick n lo hi in
    let (k, j, le, _, sent, time) =
      thread_rounds_lem env (exposure2tick_every (pos n)) (pos n) total rounds [] in
    let tick : pos_part (exposure2tick_every (pos n)) ≡ t = ap pos_part (same_tick (pos n) ∙ e) in
    let slow : j * 250 ≤ j * t = mul-le-mul_left j least in
    omega (arith, le, sent, rw tick at time, slow)
