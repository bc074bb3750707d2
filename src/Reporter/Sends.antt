-- ===== src/Reporter/Sends.antt =====
-- What the reporter of src/acquisition_reporter.cpp sends.
use native.Mathlib.Nat.{suc-mul}
use andor2k.Base.{
  ◌∷◌, [], ℕ, zero, suc, ◌+◌, ◌*◌, ◌≤◌, ◌≡◌, arith, ℤ, pos, eqb_ℤ, pos_part, Bool-cases, inl, inr,
}
use andor2k.Driver.{Event, Environment, History, send_progress, try_lock, sleep, read_elapsed}
use andor2k.Driver.Clock.{slept}
use andor2k.Reporter.{report, report_rounds, percentage}

abbrev reports_of : Event → ℕ
reports_of (send_progress _) = 1
reports_of _ = 0

-- The messages of the reporter.
abbrev pub reports : History → ℕ
reports [] = 0
reports (e ∷ h) = reports_of e + reports h

report_rounds_paced :
    (exposure_ms every_ms : ℤ) (rounds : ℕ) (start : ℤ) (env : Environment) (h : History)
    → (k : ℕ) × (k ≤ rounds)
      × (reports (report_rounds exposure_ms every_ms rounds start env h).1 ≡ k + reports h)
      × (slept (report_rounds exposure_ms every_ms rounds start env h).1
          ≡ k * pos_part every_ms + slept h)
unfolding report_rounds
report_rounds_paced exposure_ms every_ms zero start env h =
    (0, omega arith, omega arith, omega arith)
report_rounds_paced exposure_ms every_ms (suc rounds) start env h =
    elim (Bool-cases (env h try_lock).flag) [
      | inl t ↦
          (0, omega arith, rw (t, report_rounds) (omega arith), rw (t, report_rounds) (omega arith))
      | inr f ↦
          let h1 = read_elapsed ∷ try_lock ∷ h in
          let elapsed = env (try_lock ∷ h) read_elapsed in
          let h2 =
            sleep (pos_part every_ms) ∷ send_progress (percentage elapsed.int1 exposure_ms) ∷ h1 in
          let (k, le, sent, time) =
            report_rounds_paced exposure_ms every_ms rounds elapsed.int1 env h2 in
          (
            suc k,
            omega (arith, le),
            rw (f, report_rounds) (omega (arith, sent)),
            rw (f, report_rounds) (omega (arith, time, suc-mul k (pos_part every_ms))),
          )
    ]

-- A report of so many rounds at most sends k messages for some k that is not more, and sleeps for k
-- ticks in all, so that it waits for a tick after each message and for nothing else.
pub report_paced :
    (rounds : ℕ) (exposure_ms every_ms : ℤ) (env : Environment) (h : History)
    → (k : ℕ) × (k ≤ rounds)
      × (reports (report rounds exposure_ms every_ms env h).1 ≡ k + reports h)
      × (slept (report rounds exposure_ms every_ms env h).1 ≡ k * pos_part every_ms + slept h)
unfolding report
report_paced rounds exposure_ms every_ms env h = elim (Bool-cases (eqb_ℤ exposure_ms (pos 0))) [
  | inl t ↦ (0, omega arith, rw (t, report) (omega arith), rw (t, report) (omega arith))
  | inr f ↦
      let (k, le, sent, time) = report_rounds_paced exposure_ms every_ms rounds (pos 0) env h in
      (k, le, rw (f, report) sent, rw (f, report) time)
]
