-- ===== src/Chapters/Record.antt =====
-- internal/chapters/chapters.go: Record, which keeps a read of an original's header that the analyzer
-- reported. Claims says whose claim the report is of; Updates, Settle and Nothing what it sets.
pub mod Claims
pub mod Updates
pub mod Settle
pub mod Nothing
pub mod Cases
pub mod Fewer
pub mod Ends
pub mod Failures
pub mod Unreadable
pub mod Undo
use katalog_manager.Base.{
  ℕ, ◌+◌, Bool, true, false, not, ◌&&◌, ◌||◌, Option, none, some, List, [], ◌∷◌, if◌then◌else◌,
}
use katalog_manager.Base.Text.{Text, trim_space, is_empty}
use katalog_manager.Picture.Area.{clip, greatest}
use katalog_manager.Chapters.Title.{Chapter, has_chapters}
use katalog_manager.Chapters.Read.{
  Read, ReadState, state_pending, state_read, state_failed, from_header, Kept, settles, held_of,
  new_read, end_claim, backoff, release_wait, add_one,
}
use katalog_manager.Chapters.Take.{RecordRead, says}
use katalog_manager.Chapters.Report.{
  Report, BadReport, no_title_read, Outcome, release, leaves, refused, state, Files, source_of,
  positive,
}
use katalog_manager.Chapters.Record.Claims.{owns, lapsed, is_stale, is_newer}
use katalog_manager.Chapters.Record.Updates.{Call, only, failed}
use katalog_manager.Chapters.Record.Settle.{settle}
use katalog_manager.Chapters.Record.Nothing.{record_none}

abbrev pub release_row : Call → Read → Read
release_row c k = record (end_claim c.own c.lapse k) {
  next_attempt = greatest k.next_attempt (c.now + release_wait);
  modified = c.now;
}

abbrev fails_first : ReadState → ReadState
fails_first state_pending = state_failed
fails_first s = s

-- A failure of the storage or the worker.
unfoldable pub transient_failure : Call → Text → Read → Read
transient_failure c why k = record (end_claim c.own c.lapse k) {
  state = fails_first k.state;
  transients = add_one k.transients;
  next_attempt = some (c.now + backoff (add_one k.transients));
  reason = some (clip 500 why);
  read_at = some c.now;
  modified = c.now;
}

-- outcome == StateFailed
unfoldable pub record_failure : Call → Report → Bool → Kept → Read
record_failure c r newer k =
    let why = trim_space r.read.error in
    if c.lapse
    then only c why k.row
    else if newer || settles k.row c.source (has_chapters k.chapters) || held_of k.row c.source
    then only c [] k.row
    else if r.read.transient
    then transient_failure c why k.row
    else failed c why k.row

abbrev or_zero : Option ℕ → ℕ
or_zero none = 0
or_zero (some n) = n

abbrev or_none : Option (List Chapter) → List Chapter
or_none none = []
or_none (some chs) = chs

-- The variables of Record: the original and its size are those of the report's file.
unfoldable pub call_of : Report → Option ℕ × Option ℕ → ℕ → Read → Call
unfolding owns lapsed clip
call_of r (source, size) now k = record {
  own = owns (trim_space r.token) k;
  lapse = lapsed (trim_space r.token) k;
  source = source;
  size = positive r.read.file_size size;
  path = clip 2048 r.read.path;
  probe = clip 200 (trim_space r.read.probe);
  found = or_zero r.read.found;
  seconds = r.read.seconds;
  now = now;
}

-- What a report that is taken does, when it is not stale.
unfoldable pub record_as :
    Call → Report → Bool → Option RecordRead → Option Bool → Outcome → Kept → Kept
record_as c r newer rec said (refused why) k = k
record_as c r newer rec said release k = if c.own then record k { row = release_row c k.row } else k
record_as c r newer rec said (leaves state_failed) k = record k { row = record_failure c r newer k }
record_as c r newer rec said (leaves state_read) k =
    if newer
    then record k { row = only c [] k.row }
    else settle c (or_none r.chapters) from_header false c.path c.probe c.seconds
        (trim_space r.read.note) false k
record_as c r newer rec said (leaves s) k =
    if newer then record k { row = only c [] k.row } else record_none c r rec said k

unfoldable pub record_kept :
    Report → Option ℕ × Option ℕ → Option RecordRead → Option Bool → ℕ → Kept → Kept
record_kept r source rec said now k =
    let token = trim_space r.token in
    if is_stale token k.row
    then k
    else record_as (call_of r source now k.row) r (is_newer token k.row) rec said (state r) k

-- The row that the transaction finds, or adds.
abbrev pub or_new : ℕ → Option Read → Read
or_new now none = new_read now
or_new now (some r) = r

pub data ItemType : Type 0 where
  movie episode other_type : ItemType

pub data Answer : Type 0 where
  no_title : Answer
  bad : BadReport → Answer
  answers : Kept → Answer

abbrev is_none : Outcome → Bool
is_none (leaves ReadState.state_none) = true
is_none _ = false

-- The answer to a report of a title of a type, that leaves it as k.
unfoldable pub answer_of : Outcome → Option ItemType → Kept → Answer
answer_of (refused why) of_type k = bad why
answer_of o none k = no_title
answer_of o (some other_type) k = bad no_title_read
answer_of o (some t) k = answers k

-- The library and the compliance check's records are arguments: what RecordOf and recordSays find of a
-- source.
module _ (record_of : ℕ → RecordRead) (says_of : ℕ → Option Bool) where
  abbrev record_read : Bool → Option ℕ → Option RecordRead
  record_read asked none = none
  record_read asked (some s) = if asked then some (record_of s) else none

  abbrev record_says : Option RecordRead → Option ℕ → Option Bool
  record_says (some r) (some s) = if not (says r) && is_empty r.held then says_of s else none
  record_says _ s = none

  unfoldable pub record_taken : Files → Report → ℕ → Kept → Kept
  record_taken files r now k =
      let source = if r.released then (none, none) else source_of files r.read in
      let rec = record_read (is_none (state r)) source.0 in
      record_kept r source rec (record_says rec source.0) now k

  -- Record, of the row and the chapters that are kept of the title, if there is a row; ids are drawn for
  -- the chapters it writes.
  unfoldable pub record_report :
      Files → Option ItemType → Report → ℕ → Option Read → List Chapter → (ℕ → ℕ) → Answer
  record_report files of_type r now row chs ids =
      let k =
        record_taken files r now (record { row = or_new now row; chapters = chs; ids = ids }) in
      answer_of (state r) of_type k
