-- ===== src/Chapters/Decisions.antt =====
-- internal/chapters/backfill.go: an admin's decisions, accept and revert, of one title.
pub mod Back
use katalog_manager.Base.{
  ℕ, Bool, true, false, not, ◌&&◌, ◌||◌, Option, none, some, List, [], ◌∷◌, ◌++◌, is_some,
  if◌then◌else◌,
}
use katalog_manager.Base.Text.{Text, codes, is_empty}
use katalog_manager.Picture.Area.{clip}
use katalog_manager.Chapters.Title.{Chapter, has_chapters}
use katalog_manager.Chapters.Read.{
  Read, ReadState, state_read, state_none, state_unreadable, state_held, Reader, from_record,
  from_catalog, by_admin, Replaced, Kept, same_source,
}
use katalog_manager.Chapters.Take.{RecordRead, says, put}
use katalog_manager.Chapters.FromRecord.{found_state}
use katalog_manager.Chapters.Record.Updates.{count_of}

-- What an acceptance takes for a held title's chapters: the catalog's, or the source record's.
pub data Taking : Type 0 where
  take_catalog take_record : Taking

-- Why a decision is refused.
pub data Refusal : Type 0 where
  no_such_title no_original never_read not_current unreadable_record : Refusal
  undecided : ReadState → Refusal
  record_unsaid : Option Text → Text → Refusal
  nothing_replaced unreadable_undo : Refusal

pub data Decision : Type 0 where
  refuses : Refusal → Decision
  done : Kept → Decision

-- accept, of an unreadable title.
unfoldable pub accept_unreadable : Text → ℕ → Kept → Kept
accept_unreadable by now k = record k {
  row = record k.row { accepted_at = some now; accepted_by = some (clip 255 by); modified = now };
}

abbrev took : Taking → Text
took take_catalog = codes "an admin took the catalog's chapters"
took take_record = codes "an admin took the record's chapters"

-- accept, of a held title whose chapters are got then.
unfoldable pub accept_held : Taking → List Chapter → Reader → ℕ → Text → ℕ → Kept → Kept
accept_held taking got from current by now k =
    let k' = put got k.row.rows_source (some current) by_admin now k in
    record k' {
      row = record k'.row {
        state = found_state got;
        read_from = some from;
        confirmed = not (has_chapters got);
        written = some (count_of got);
        reason = some (clip 500 (took taking));
        accepted_at = some now;
        accepted_by = some (clip 255 by);
        next_attempt = none;
        modified = now;
      };
    }

-- What the source record gives: its chapters, none where its marks have no place, or why it can't say.
unfoldable pub record_chapters : RecordRead → Option (List Chapter)
record_chapters r =
    if says r then some r.chapters else if not (is_empty r.held) then some [] else none

abbrev pub accept_found : Option (List Chapter) → RecordRead → ℕ → Text → ℕ → Kept → Decision
accept_found none rec current by now k = refuses (record_unsaid rec.err rec.why)
accept_found (some got) rec current by now k =
    done (accept_held take_record got from_record current by now k)

unfoldable pub accept_taking : Taking → RecordRead → ℕ → Text → ℕ → Kept → Decision
accept_taking take_catalog rec current by now k =
    done (accept_held take_catalog k.chapters from_catalog current by now k)
accept_taking take_record rec current by now k =
    accept_found (record_chapters rec) rec current by now k

abbrev pub is_unreadable : ReadState → Bool
is_unreadable state_unreadable = true
is_unreadable _ = false

abbrev pub is_held : ReadState → Bool
is_held state_held = true
is_held _ = false

abbrev pub takes_record : Taking → Bool
takes_record take_record = true
takes_record take_catalog = false

unfoldable pub accept_kept : Taking → RecordRead → ℕ → Text → ℕ → Kept → Decision
accept_kept taking rec current by now k =
    if not (is_unreadable k.row.state) && not (is_held k.row.state)
    then refuses (undecided k.row.state)
    else if not (same_source k.row.source (some current))
    then refuses not_current
    else if is_unreadable k.row.state && takes_record taking
    then refuses unreadable_record
    else if is_unreadable k.row.state
    then done (accept_unreadable by now k)
    else accept_taking taking rec current by now k

-- accept, of a title that exists or not, its current original, if it has one, and its row, if it has one;
-- record_of is what RecordOf finds.
unfoldable pub accept :
    (ℕ → RecordRead)
    → Bool
    → Option ℕ
    → Taking
    → Text
    → ℕ
    → Option Read
    → List Chapter
    → (ℕ → ℕ)
    → Decision
accept record_of false current taking by now row chs ids = refuses no_such_title
accept record_of true none taking by now row chs ids = refuses no_original
accept record_of true (some cur) taking by now none chs ids = refuses never_read
accept record_of true (some cur) taking by now (some r) chs ids =
    accept_kept taking (record_of cur) cur by now (record { row = r; chapters = chs; ids = ids })

-- Nothing in the catalog to keep to undo in turn: the undo is used.
unfoldable pub use_undo : Kept → Kept
use_undo k =
    if has_chapters k.chapters then k else record k { row = record k.row { replaced = none } }

-- revert, of the chapters kept to undo.
unfoldable pub revert_to : List Chapter → Option ℕ → Text → ℕ → Kept → Kept
revert_to got current by now k =
    let k' = put got k.row.rows_source current by_admin now (use_undo k) in
    record k' {
      row = record k'.row {
        state = state_read;
        read_from = some from_catalog;
        confirmed = false;
        source = current;
        written = some (count_of got);
        reason = some (codes "an admin took back the chapters a read replaced");
        accepted_at = some now;
        accepted_by = some (clip 255 by);
        next_attempt = none;
        modified = now;
      };
    }

abbrev pub revert_undo : Option Replaced → Option ℕ → Text → ℕ → Kept → Decision
revert_undo none current by now k = refuses nothing_replaced
revert_undo (some u) current by now k =
    if has_chapters u.chapters
    then done (revert_to u.chapters current by now k)
    else refuses unreadable_undo

unfoldable pub revert_kept : Option ℕ → Text → ℕ → Kept → Decision
revert_kept current by now k = revert_undo k.row.replaced current by now k

-- revert
unfoldable pub revert : Option ℕ → Text → ℕ → Option Read → List Chapter → (ℕ → ℕ) → Decision
revert current by now none chs ids = refuses nothing_replaced
revert current by now (some r) chs ids =
    revert_kept current by now (record { row = r; chapters = chs; ids = ids })
