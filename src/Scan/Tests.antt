-- ===== src/Scan/Tests.antt =====
-- Scans in a world where all goes well, and in one where the second image fails.
use andor2k.Base.{
  leb, ◌*◌, ◌<◌, ◌≡◌, ◌≢◌, ◌⊎◌, refl, Bool, true, [], arith, pos, ltb, if◌then◌else◌,
}
use andor2k.Base.Text.{codes}
use andor2k.Headers.{FitsHeaders, no_headers}
use andor2k.Driver.{
  no_new_data, Environment, Event, Reply, success, undocumented, call, wait_for_acquisition,
}
use andor2k.Driver.Threads.{IsQuiet}
use andor2k.Driver.Messages.{dones}
use andor2k.Scan.{
  get_single_scan, get_rta_scan, wait_new_data, series_loop, series_image, series_new_data,
  series_data, series_end,
}
use andor2k.Driver.Clock.{slept, Punctual}
use andor2k.Scan.Quiet
use andor2k.Scan.Answer
use andor2k.Scan.Result
use andor2k.Scan.Result.{saved}

abbrev good : Reply
good = record {
  status = success;
  flag = true;
  int1 = pos 0;
  int2 = pos 0;
  float1 = 0;
  float2 = 0;
  float3 = 0;
  text = codes "a.fits";
  headers = [];
}

abbrev fair : Environment
fair h e = good

abbrev answer : Bool → Event → Reply
answer broken (call wait_for_acquisition) =
    if broken then record good { status = undocumented 20024 } else good
answer broken _ = good

-- Waiting fails once an image is saved.
abbrev breaks : Environment
breaks h e = answer (ltb 0 (saved h)) e

abbrev none_yet : FitsHeaders
none_yet = no_headers 100

single_ok : (get_single_scan none_yet (pos 2) (pos 2) fair []).0 ≡ 0
unfolding get_single_scan
single_ok = refl

series_ok : (get_rta_scan none_yet (pos 2) (pos 2) (pos 3) fair []).0 ≡ 0
unfolding get_rta_scan series_loop series_image series_new_data series_data wait_new_data series_end
series_ok = refl

series_breaks : (get_rta_scan none_yet (pos 2) (pos 2) (pos 3) breaks []).0 ≡ 1
unfolding get_rta_scan series_loop series_image series_new_data series_data wait_new_data series_end
series_breaks = refl

get_rta_scan-IsQuiet_example :
    IsQuiet breaks (get_rta_scan none_yet (pos 2) (pos 2) (pos 3) breaks []).1
get_rta_scan-IsQuiet_example =
    Quiet.get_rta_scan-IsQuiet none_yet (pos 2) (pos 2) (pos 3) breaks [] (λ h. refl) refl

dones-get_rta_scan_example : dones (get_rta_scan none_yet (pos 2) (pos 2) (pos 3) breaks []).1 ≡ 1
dones-get_rta_scan_example = Answer.dones-get_rta_scan none_yet (pos 2) (pos 2) (pos 3) breaks []

saved-get_rta_scan_example :
    let (c, h') = get_rta_scan none_yet (pos 2) (pos 2) (pos 3) breaks [] in
    ((c ≡ 0) × (saved h' ≡ 3)) ⊎ ((c ≢ 0) × (saved h' < 3))
saved-get_rta_scan_example =
    Result.saved-get_rta_scan none_yet (pos 2) (pos 2) (pos 3) breaks [] (omega arith)

-- Nothing ever comes, by a clock that adds up the sleeps.
abbrev stalled : Environment
stalled h e = record good { status = no_new_data; flag = leb 11000 (slept h) }

stalled-Punctual : Punctual stalled (11 * 1000)
stalled-Punctual h late = ground arith
