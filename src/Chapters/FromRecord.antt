-- ===== src/Chapters/FromRecord.antt =====
-- internal/chapters/backfill.go: FromRecord, which settles a title from its original's source record, and
-- recordLater, of a record that was not read.
pub mod Settled
use katalog_manager.Base.{
  ℕ, ◌+◌, Bool, true, false, not, ◌&&◌, ◌||◌, Option, none, some, List, [], ◌++◌, length, is_some,
  if◌then◌else◌,
}
use katalog_manager.Base.Text.{Text, codes, is_empty}
use katalog_manager.Picture.Area.{clip, null_if_empty}
use katalog_manager.Chapters.Title.{Chapter, has_chapters}
use katalog_manager.Chapters.Read.{
  Read, ReadState, state_read, state_none, state_failed, state_held, from_record, by_reader, Kept,
  settles, held_of, backoff, settled_wait, add_one, new_read,
}
use katalog_manager.Chapters.Take.{
  RecordRead, says, How, take_write, take_keep, take_none, take_stay, take_hold, take, put,
  set_rows_source, replaced_note,
}
use katalog_manager.Chapters.Record.Updates.{count_of}

-- noted: the record was read and settled nothing; held holds the title besides.
unfoldable pub noted : ℕ → ℕ → Text → Bool → Kept → Kept
noted source now why held k = record k {
  row = record k.row {
    record_source = some source;
    record_at = some now;
    record_note = some (clip 500 why);
    state = if held then state_held else k.row.state;
    source = if held then some source else k.row.source;
    reason = if held then some (clip 500 why) else k.row.reason;
    next_attempt = if held then none else k.row.next_attempt;
    modified = now;
  };
}

abbrev unsaid : RecordRead → Text
unsaid r = elim r.err [ none ↦ r.why | some e ↦ codes "its source record could not be read: " ++ e ]

abbrev pub found_state : List Chapter → ReadState
found_state got = if has_chapters got then state_read else state_none

-- The row of a title that its record settled.
unfoldable pub settled_row : ℕ → RecordRead → ℕ → Text → Kept → Kept
settled_row source rec now reason k = record k {
  row = record k.row {
    state = found_state rec.chapters;
    read_from = some from_record;
    confirmed = not (has_chapters rec.chapters);
    source = some source;
    path = some (clip 2048 rec.path);
    file_size = none;
    found = some rec.found;
    written = some (count_of rec.chapters);
    probe = some (codes "source record");
    seconds = none;
    reason = null_if_empty (clip 500 reason);
    read_at = some now;
    record_source = some source;
    record_at = some now;
    record_note = none;
    failures = 0;
    transients = 0;
    next_attempt = some (now + settled_wait);
    modified = now;
  };
}

unfoldable pub put_reason : RecordRead → Kept → Text
put_reason rec k =
    let reason =
      if not (is_empty rec.note)
      then rec.note
      else if has_chapters rec.chapters
      then codes "read from its source record"
      else codes "its source record holds no chapter mark" in
    if has_chapters k.chapters then replaced_note reason (length k.chapters) else reason

-- What the record that says comes to: whether it settled the title, and the title then.
unfoldable pub take_record : ℕ → Bool → RecordRead → ℕ → How × Text → Kept → Bool × Kept
take_record source present rec now (take_hold, why) k =
    (false, noted source now (codes "its source record: " ++ why) present k)
take_record source present rec now (take_stay, why) k = (
  false,
  noted source now
      (codes "its source record holds no chapter; the chapters read before of this original stay")
      false k,
)
take_record source present rec now (take_keep, why) k = (
  true,
  settled_row source rec now (codes "the chapters in the catalog are those of its source record")
      (set_rows_source (some source) k),
)
take_record source present rec now (how, why) k = (
  true,
  settled_row source rec now (put_reason rec k)
      (put rec.chapters k.row.rows_source (some source) (by_reader from_record) now k),
)

-- FromRecord, of the row found or added; present says that the original is on disk.
unfoldable pub from_record_kept : ℕ → Bool → RecordRead → ℕ → Kept → Bool × Kept
from_record_kept source present rec now k =
    if is_some k.row.claimed_at
      || held_of k.row (some source)
      || settles k.row (some source) (has_chapters k.chapters)
    then (false, k)
    else if not (is_empty rec.held)
    then (false, noted source now rec.held present k)
    else if not (says rec)
    then (false, noted source now (unsaid rec) false k)
    else take_record source present rec now
        (take k.chapters rec.chapters k.row.rows_source (some source)) k

-- recordLater, of the error's text.
unfoldable pub record_later : Text → ℕ → Read → Read
record_later why now r = record r {
  record_note = some (clip 500 (codes "its source record could not be read: " ++ why));
  transients = add_one r.transients;
  next_attempt = some (now + backoff (add_one r.transients));
  modified = now;
}
