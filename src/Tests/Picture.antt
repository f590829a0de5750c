-- ===== src/Tests/Picture.antt =====
-- Cases of the picture areas' theorems.
use katalog_manager.Base.{◌≡◌, refl, true, false, Option, none, some}
use katalog_manager.Base.Text.{Text, codes, trim_space, trim_left, trim_right, is_space}
use katalog_manager.Picture.Report.{
  Report, Size, Rect, Numbers, raw_none, measured, failed, leaves, state, state_of, bad_frame,
  outside_frame,
}
use katalog_manager.Picture.Area.{Area, hour, lapsed}
use katalog_manager.Picture.Record.{
  Named, new_area, record_report, record_unless, record_kept, record_as, kept, refuses,
}
use katalog_manager.Picture.Record.Kept.{IsWhole, record_report-IsWhole, record_report-failure}

abbrev no_numbers : Numbers
no_numbers = record {
  samples = none;
  informative = none;
  duration_ms = none;
  seconds = none;
  cpu_seconds = none;
  bytes_read = none;
}

abbrev full_frame : Size
full_frame = record { width = 1920; height = 1080 }

abbrev wide_area : Rect
wide_area = record { x = 0; y = 140; width = 1920; height = 800 }

-- A measurement of the claim t.
abbrev wide : Report
wide = record {
  path = codes "/m";
  method = codes "";
  token = codes "t";
  frame = some full_frame;
  area = some wide_area;
  numbers = no_numbers;
  measured_on = none;
  sampling = raw_none;
  video = raw_none;
  decoder = codes "";
  sides = raw_none;
  reason = codes "";
  error = codes "";
  released = false;
}

abbrev broken : Report
broken = record wide { error = codes "no file" }

wide_measured : state wide ≡ leaves measured
unfolding state state_of bad_frame outside_frame trim_space trim_left trim_right is_space
wide_measured = refl

broken_failed : state broken ≡ leaves failed
unfolding state trim_space trim_left trim_right is_space
broken_failed = refl

abbrev movie : Named
movie = record {
  of_item = true;
  known = true;
  covered_by = false;
  own_frame = true;
  item = 7;
  file = record { source = none; version = none; package_id = none };
  current = true;
}

-- A movie claimed, with nothing measured yet.
abbrev claimed_area : Area
claimed_area = record (new_area movie 5) { claimed_at = some 5; claim_token = some (codes "t") }

-- The same, measured.
abbrev measured_area : Area
measured_area = record_as (λ r. none) hour wide 7 movie.file 10 true (leaves measured) claimed_area

no_sampling : Report → Option Text
no_sampling r = none

claimed_area-IsWhole : IsWhole claimed_area
unfolding new_area
claimed_area-IsWhole = record {
  area_measured = refl;
  frame_measured = λ h. absurd (cc h);
  reason_measured = λ h. absurd (cc h);
  reason_told = λ h. absurd (cc h);
}

abbrev wide_kept : Area
wide_kept = record_as no_sampling hour wide 7 movie.file 10 true (state wide) claimed_area

wide_recorded : record_report no_sampling hour movie wide 10 (some claimed_area) ≡ kept wide_kept
unfolding record_report record_unless record_kept refuses new_area state state_of bad_frame
    outside_frame trim_space trim_left trim_right is_space
wide_recorded = refl

record_report-IsWhole_example : IsWhole wide_kept
record_report-IsWhole_example =
    record_report-IsWhole no_sampling hour movie wide 10 claimed_area wide_kept claimed_area-IsWhole
      wide_recorded

abbrev broken_kept : Area → Area
broken_kept k = record_as no_sampling hour broken 7 movie.file 20 true (state broken) k

abbrev known_area : Area
known_area = record claimed_area {
  state = measured;
  area = some wide_area;
  frame_width = some 1920;
  frame_height = some 1080;
}

broken_recorded :
    record_report no_sampling hour movie broken 20 (some known_area) ≡ kept (broken_kept known_area)
unfolding record_report record_unless record_kept refuses new_area state trim_space trim_left
    trim_right is_space
broken_recorded = refl

record_report-failure_example :
    ((broken_kept known_area).area ≡ some wide_area)
    × ((broken_kept known_area).state ≡ measured)
    × ((broken_kept known_area).reason ≡ none)
    × ((broken_kept known_area).next_attempt ≡ none)
    × ((broken_kept known_area).failures ≡ 1)
unfolding lapsed trim_space trim_left trim_right is_space new_area
record_report-failure_example =
    record_report-failure no_sampling hour movie broken 20 known_area (broken_kept known_area)
      broken_failed refl refl broken_recorded

broken_first :
    record_report no_sampling hour movie broken 20 (some claimed_area)
    ≡ kept (broken_kept claimed_area)
unfolding record_report record_unless record_kept refuses new_area state trim_space trim_left
    trim_right is_space
broken_first = refl
