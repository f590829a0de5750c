-- ===== src/Picture/Record.antt =====
-- internal/picture/picture.go: Record, which keeps what the analyzer reported of a title, and ends
-- the claim that the report names. Times are in nanoseconds.
pub mod Kept
use katalog_manager.Base.{
  ℕ, ◌+◌, ◌-◌, ◌*◌, Bool, true, false, not, ◌&&◌, ◌||◌, Option, none, some, List, [], ◌∷◌, ◌++◌,
  max, is_some, ltb, leb, ◌==◌, any, if◌then◌else◌,
}
use katalog_manager.Base.Text.{Text, codes, trim_space, trim_right, is_empty}
use katalog_manager.Base.Backoff.{doubled}
use katalog_manager.Picture.Report
use katalog_manager.Picture.Report.{
  Report, Size, Rect, Raw, raw_object, ReadKind, kind_none, kind_original, kind_package, MeasuredOn,
  Numbers, AreaState, pending, measured, unknown, failed, BadReport, Taken, release, leaves,
  refused, state, lt_int32,
}
use katalog_manager.Picture.Area.{
  backoff, clip, File, Area, owns, lapsed, owns_release, end_claim, release_area, read_kind,
  read_size, raw_text, null_if_empty, width, height,
}

-- An area that a measurement gave.
abbrev pub is_told : AreaState → Bool
is_told measured = true
is_told unknown = true
is_told _ = false

-- samplingOf is calls of the json package: a parameter, sampling.
module _ (sampling : Report → Option Text) where
  -- The measurement's columns, but for the frame, the area, the state and the reason.
  unfoldable pub keep_file : Report → ℕ → File → ℕ → Area → Area
  unfolding read_kind read_size
  keep_file r item f now k = record k {
    item = item;
    path = some r.path;
    file = f;
    method = null_if_empty r.method;
    numbers = r.numbers;
    evidence = raw_text r.sides;
    measured_on = some (read_kind r f);
    file_size = read_size r f;
    sampling = sampling r;
    modified = now;
  }

  -- The failures after this one: one that lapsed was counted then.
  abbrev failures_after : Bool → Area → ℕ
  failures_after lapse k = if lapse then k.failures else k.failures + 1

  -- What a failure sets: current says that the area kept is of what plays now.
  unfoldable pub fail_area : Report → ℕ → File → ℕ → Bool → Bool → Bool → Area → Area
  unfolding keep_file end_claim clip backoff
  fail_area r item f now current own lapse k =
      let why = clip 500 (trim_space r.error) in
      let k' = end_claim own lapse k in
      if lapse
      then record k' { reason = if is_told k.state then k.reason else some why; modified = now }
      else if current && is_told k.state
      then record k' { failures = k.failures + 1; modified = now }
      else record (keep_file r item f now k') {
        state = failed;
        frame_width = width r.frame;
        frame_height = height r.frame;
        area = none;
        reason = some why;
        failures = k.failures + 1;
        next_attempt = some (now + backoff (k.failures + 1));
      }

  -- The reason of an area that the analyzer could not tell.
  abbrev unknown_reason : Text → Text
  unknown_reason t = if is_empty t then codes "the analyzer could not tell" else t

  unfoldable pub measure_area : Report → ℕ → File → ℕ → Bool → Bool → AreaState → Area → Area
  unfolding keep_file end_claim clip
  measure_area r item f now own lapse s k =
      record (keep_file r item f now (end_claim own lapse k)) {
        state = s;
        frame_width = width r.frame;
        frame_height = height r.frame;
        area = r.area;
        reason = elim s [
          | unknown ↦ some (unknown_reason (clip 500 (trim_space r.reason)))
          | _ ↦ none
        ];
        measured_at = some now;
        failures = 0;
        releases = 0;
        costly_runs = 0;
        next_attempt = none;
      }

  -- What a report that is taken does to the row kept.
  unfoldable pub record_as : ℕ → Report → ℕ → File → ℕ → Bool → Taken → Area → Area
  unfolding owns_release release_area owns lapsed fail_area measure_area
  record_as lease r item f now current (refused why) k = k
  record_as lease r item f now current release k =
      if owns_release r k then release_area lease now k else k
  record_as lease r item f now current (leaves failed) k =
      let token = trim_space r.token in
      fail_area r item f now current (owns token k) (lapsed token k) k
  record_as lease r item f now current (leaves s) k =
      let token = trim_space r.token in
      measure_area r item f now (owns token k) (lapsed token k) s k

-- The title that a report names: an item's type and what covers it, or an extra; known says that it is
-- there, item is the item that its row names. file is what itemFileOf or the extra's package says of
-- the path, and current whether the area kept is of what plays now.
pub record Named : Type 0 where
  pub of_item : Bool
  pub known : Bool
  pub covered_by : Bool
  pub own_frame : Bool
  pub item : ℕ
  pub file : File
  pub current : Bool

-- Record's answer: the row as it is kept then, or why it takes no report.
pub data Refusal : Type 0 where
  no_title : Refusal
  bad : BadReport → Refusal

pub data Answer : Type 0 where
  declines : Refusal → Answer
  kept : Area → Answer

-- The row that is added for a title without one.
unfoldable pub new_area : Named → ℕ → Area
new_area n now = record {
  of_item = n.of_item;
  item = n.item;
  state = pending;
  frame_width = none;
  frame_height = none;
  area = none;
  path = none;
  file = record { source = none; version = none; package_id = none };
  method = none;
  reason = none;
  numbers = record {
    samples = none;
    informative = none;
    duration_ms = none;
    seconds = none;
    cpu_seconds = none;
    bytes_read = none;
  };
  evidence = none;
  measured_on = none;
  file_size = none;
  sampling = none;
  measured_at = none;
  claimed_at = none;
  claimed_by = none;
  claim_token = none;
  lapsed_token = none;
  failures = 0;
  releases = 0;
  costly_runs = 0;
  next_attempt = none;
  modified = now;
}

abbrev pub or_new : Named → ℕ → Option Area → Area
or_new n now none = new_area n now
or_new n now (some k) = k

abbrev pub same_kind : Bool → Bool → Bool
same_kind true b = b
same_kind false b = not b

-- Why a title takes no report, none when it takes one.
unfoldable pub refuses : Named → Option Refusal
refuses n =
    if not n.known
    then some no_title
    else if n.of_item && n.covered_by
    then some (bad Report.covered)
    else if n.of_item && not n.own_frame
    then some (bad Report.no_own_frame)
    else none

abbrev pub refusal : Taken → Named → Option Refusal
refusal (refused why) n = some (bad why)
refusal t n = refuses n

-- Record, of the row that is kept of the title, if there is one.
unfoldable pub record_kept : (Report → Option Text) → ℕ → Named → Report → ℕ → Area → Answer
unfolding record_as state
record_kept sampling lease n r now k =
    if same_kind n.of_item k.of_item
    then kept (record_as sampling lease r n.item n.file now n.current (state r) k)
    else declines (bad Report.other_kind)

unfoldable pub record_unless :
    (Report → Option Text) → ℕ → Named → Report → ℕ → Option Refusal → Area → Answer
unfolding record_kept
record_unless sampling lease n r now (some why) k = declines why
record_unless sampling lease n r now none k = record_kept sampling lease n r now k

unfoldable pub record_report :
    (Report → Option Text) → ℕ → Named → Report → ℕ → Option Area → Answer
unfolding record_unless refuses new_area
record_report sampling lease n r now row =
    record_unless sampling lease n r now (refusal (state r) n) (or_new n now row)
