-- ===== src/Reporter/Thread/Tests.antt =====
-- A reporter that is told to stop after two messages.
use andor2k.Base.{◌+◌, ◌*◌, ◌≤◌, ◌≡◌, refl, true, [], leb, pos, arith}
use andor2k.Driver.{Environment, success}
use andor2k.Driver.Clock.{slept}
use andor2k.Reporter.Thread.{thread_report}
use andor2k.Reporter.Thread.Spaced
use andor2k.Reporter.Thread.Spaced.{reports}

abbrev told_after_two : Environment
told_after_two h e = record {
  status = success;
  flag = leb 2 (reports h);
  int1 = pos 750;
  int2 = pos 750;
  float1 = 0;
  float2 = 0;
  float3 = 0;
  text = [];
  headers = [];
}

ended : (thread_report 5 (pos 1000) (pos 3000) told_after_two []).0 ≡ true
unfolding thread_report
ended = refl

thread_report-spaced_example :
    reports (thread_report 5 (pos 1000) (pos 3000) told_after_two []).1 * 250
    ≤ slept (thread_report 5 (pos 1000) (pos 3000) told_after_two []).1 + 250
thread_report-spaced_example =
    Spaced.thread_report-spaced 1000 (pos 3000) 5 told_after_two (omega arith) (omega arith)
