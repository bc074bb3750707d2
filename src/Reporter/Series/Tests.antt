-- ===== src/Reporter/Series/Tests.antt =====
-- A reporter of a series whose image changes after its first message.
use andor2k.Base.{
  ◌≡◌, refl, Bool, true, false, [], arith, ℤ, pos, ltb, if◌then◌else◌, some, length, ◌+◌,
}
use andor2k.Driver.{Environment, Event, success, try_lock}
use andor2k.Reporter.Series.{series_report, estimated_series_time}
use andor2k.Reporter.Series.Order

abbrev is_try : Event → Bool
is_try try_lock = true
is_try _ = false

-- The number of the image is that of the events before it, and the mutex is free after twenty.
abbrev going_on : Environment
going_on h e = record {
  status = success;
  flag = if is_try e then ltb 20 (length h) else false;
  int1 = pos (length h + 1);
  int2 = pos 500;
  float1 = 0;
  float2 = 0;
  float3 = 0;
  text = [];
  headers = [];
}

estimate : estimated_series_time (λ ms. pos 2000) (pos 1000) (pos 3) ≡ pos 5412
unfolding estimated_series_time
estimate = refl

last_image : (series_report 9 (λ ms. pos 2000) (pos 1000) (pos 3) going_on []).0 ≡ some (pos 22)
unfolding series_report
last_image = refl

counts_up : Order.CountsUp going_on
counts_up h e = omega arith

series_report-Ordered_example :
    (n : ℤ) × Order.Ordered n (series_report 9 (λ ms. pos 2000) (pos 1000) (pos 3) going_on []).1
series_report-Ordered_example =
    Order.series_report-Ordered going_on counts_up 9 (λ ms. pos 2000) (pos 1000) (pos 3)
      (omega arith)
