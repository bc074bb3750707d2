-- ===== src/Reporter/Series/Order.antt =====
-- Which images the reporter of src/acquisition_series_reporter.cpp says are acquired.
use andor2k.Base.{
  ℕ, zero, suc, ◌+◌, ◌<◌, ◌≡◌, true, false, [], ◌∷◌, arith, ℤ, pos, pos_part, neg_part, ◌≤ℤ◌, eqb_ℤ,
  Bool-cases, inl, inr,
}
use andor2k.Driver.{
  History, Event, Environment, send_series, read_current_image, read_series_times, restart_image,
  try_lock, sleep,
}
use andor2k.Reporter.Series.{
  FirstEstimate, next_image, series_round, series_rounds, series_report, percent_of,
  estimated_time_per_image, estimated_series_time, every_millisec,
}

infix 50 ◌<ℤ◌
abbrev pub ◌<ℤ◌ : ℤ → ℤ → Type 0
a <ℤ b = pos_part a + neg_part b < pos_part b + neg_part a

-- The images that messages say are acquired, the newest message first, are each before `n` and before
-- that of the message after it.
abbrev pub Ordered : ℤ → History → Type 0
Ordered n [] = Unit {0}
Ordered n (send_series true k _ _ ∷ h) = (k <ℤ n) × Ordered k h
Ordered n (_ ∷ h) = Ordered n h

-- The main thread only counts up.
abbrev pub CountsUp : Environment → Type 0
CountsUp env =
    (h : History) (e : Event)
    → (env h read_current_image).int1 ≤ℤ (env (e ∷ h) read_current_image).int1

Ordered-mono : (h : History) (m n : ℤ) → m ≤ℤ n → Ordered m h → Ordered n h
Ordered-mono [] m n le o = tt
Ordered-mono (send_series true k _ _ ∷ h) m n le o = (omega (arith, o.0), o.1)
Ordered-mono (send_series false k _ _ ∷ h) m n le o = Ordered-mono h m n le o
Ordered-mono (_ ∷ h) m n le o = Ordered-mono h m n le o

before : (a b : ℤ) → a ≤ℤ b → eqb_ℤ a b ≡ false → a <ℤ b
before a b le e = ground arith

module _ (env : Environment) (up : CountsUp env) where
  -- What the loop keeps.
  abbrev Keeps : ℤ → History → Type 0
  Keeps cur h = Ordered cur h × (cur ≤ℤ (env h read_current_image).int1)

  next_image-Keeps :
      (cur elapsed total : ℤ) (h : History)
      → Keeps cur h
      → let (cur', h') = next_image cur elapsed total env h in Keeps cur' h'
  unfolding next_image
  next_image-Keeps cur elapsed total h (o, le) =
      let now = (env h read_current_image).int1 in
      let h1 = read_current_image ∷ h in
      let h2 = restart_image (pos 100) ∷ h1 in
      let h3 = send_series true cur (pos 100) (percent_of elapsed total) ∷ h2 in
      let up1 = up h read_current_image in
      elim (Bool-cases (eqb_ℤ cur now)) [
        | inl t ↦ rw (t, next_image) (o, omega (arith, le, up1))
        | inr f ↦
            let lt = before cur now le f in
            let up2 = up h1 (restart_image (pos 100)) in
            let up3 = up h2 (send_series true cur (pos 100) (percent_of elapsed total)) in
            let up4 = up h3 read_current_image in
            rw (f, next_image) ((omega (arith, lt, up1, up2, up3), o), up4)
      ]

  series_round-Keeps :
      (first : FirstEstimate) (exposure_ms total cur : ℤ) (h : History)
      → Keeps cur h
      → let (cur', h') = series_round first exposure_ms total cur env h in Keeps cur' h'
  unfolding series_round
  series_round-Keeps first exposure_ms total cur h (o, le) =
      let h1 = read_series_times ∷ h in
      let times = env h read_series_times in
      let up1 = up h read_series_times in
      let (cur', h2) = next_image cur times.int2 total env h1 in
      let (o', le') = next_image-Keeps cur times.int2 total h1 (o, omega (arith, le, up1)) in
      let sent =
        send_series false cur'
          (percent_of times.int1 (estimated_time_per_image first exposure_ms cur'))
          (percent_of times.int2 total) in
      let up2 = up h2 sent in
      let up3 = up (sent ∷ h2) (sleep every_millisec) in (o', omega (arith, le', up2, up3))

  series_rounds-Keeps :
      (first : FirstEstimate) (exposure_ms total : ℤ) (rounds : ℕ) (cur : ℤ) (h : History)
      → Keeps cur h
      → (n : ℤ) × Ordered n (series_rounds first exposure_ms total rounds cur env h).1
  unfolding series_rounds
  series_rounds-Keeps first exposure_ms total zero cur h (o, le) = (cur, o)
  series_rounds-Keeps first exposure_ms total (suc rounds) cur h (o, le) =
      let h1 = try_lock ∷ h in
      let up1 = up h try_lock in
      elim (Bool-cases (env h try_lock).flag) [
        | inl t ↦ (cur, rw (t, series_rounds) o)
        | inr f ↦
            let (cur', h2) = series_round first exposure_ms total cur env h1 in
            let (n, o') =
              series_rounds-Keeps first exposure_ms total rounds cur' h2
                (series_round-Keeps first exposure_ms total cur h1 (o, omega (arith, le, up1))) in
            (n, rw (f, series_rounds) o')
      ]

-- Where the number of the current image is 1 at least when the reporter starts, and the main thread
-- only counts up, the messages of a reporter that say that an image is acquired say so of an image
-- once at most, and in the order of the images.
pub series_report-Ordered :
    (env : Environment)
    → CountsUp env
    → (rounds : ℕ) (first : FirstEstimate) (exposure_ms num_images : ℤ)
    → pos 1 ≤ℤ (env [] read_current_image).int1
    → (n : ℤ) × Ordered n (series_report rounds first exposure_ms num_images env []).1
unfolding series_report
series_report-Ordered env up rounds first exposure_ms num_images le =
    series_rounds-Keeps env up first exposure_ms
      (estimated_series_time first exposure_ms num_images) rounds (pos 1) [] (tt, le)
