-- ===== src/Driver/Clock.antt =====
-- Time, as the sleeps of a history add it up, and a clock that keeps it.
use andor2k.Base.{ℕ, ◌+◌, ◌≤◌, ◌≡◌, [], ◌∷◌, true}
use andor2k.Driver.{Event, History, Environment, sleep, read_clock}

abbrev pub slept_in : Event → ℕ
slept_in (sleep ms) = ms
slept_in _ = 0

-- The milliseconds slept.
abbrev pub slept : History → ℕ
slept [] = 0
slept (e ∷ h) = slept_in e + slept h

-- Once so many milliseconds have been slept in all, the clock says that the time is over.
abbrev pub Punctual : Environment → ℕ → Type 0
Punctual env limit = (h : History) → limit ≤ slept h → (env h read_clock).flag ≡ true
