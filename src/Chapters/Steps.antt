-- ===== src/Chapters/Steps.antt =====
-- internal/chapters: a title's life, as steps of its read row and its chapters: the reports of the
-- analyzer, the reads of its source record, the backfill's hand-outs and lapses, and an admin's
-- decisions.
pub mod Undo
pub mod Written
use katalog_manager.Base.{ℕ, ◌≡◌, refl, Bool, Option, none, some, List}
use katalog_manager.Base.Text.{Text}
use katalog_manager.Chapters.Read.{Read, Kept, new_read}
use katalog_manager.Chapters.Take.{RecordRead}
use katalog_manager.Chapters.Report.{Report}
use katalog_manager.Chapters.Record.{record_kept}
use katalog_manager.Chapters.FromRecord.{from_record_kept, record_later}
use katalog_manager.Chapters.Decisions.{Taking, done, accept_kept, revert_kept}
use katalog_manager.Chapters.Waits.{expire_row, transient_row, hand_out_row}

pub data Step : Kept → Kept → Type 0 where
  reported :
      (r : Report) (source : Option ℕ × Option ℕ) (rec : Option RecordRead) (said : Option Bool)
      (now : ℕ) (k : Kept)
      → Step k (record_kept r source rec said now k)
  recorded :
      (source : ℕ) (present : Bool) (rec : RecordRead) (now : ℕ) (k : Kept)
      → Step k (from_record_kept source present rec now k).1
  postponed :
      (why : Text) (now : ℕ) (k : Kept) → Step k (record k { row = record_later why now k.row })
  lapsed : (why : Text) (now : ℕ) (k : Kept) → Step k (record k { row = expire_row why now k.row })
  passed_over :
      (why : Text) (now : ℕ) (k : Kept) → Step k (record k { row = transient_row why now k.row })
  handed_out :
      (worker token : Text) (now : ℕ) (k : Kept)
      → Step k (record k { row = hand_out_row worker token now k.row })
  accepted :
      (taking : Taking) (rec : RecordRead) (current : ℕ) (by : Text) (now : ℕ) (k after : Kept)
      → accept_kept taking rec current by now k ≡ done after
      → Step k after
  reverted :
      (current : Option ℕ) (by : Text) (now : ℕ) (k after : Kept)
      → revert_kept current by now k ≡ done after
      → Step k after

-- The titles that come of one without chapters and without a read.
pub data Reached : Kept → Type 0 where
  first :
      (now : ℕ) (ids : ℕ → ℕ)
      → Reached (record { row = new_read now; chapters = List.[]; ids = ids })
  next : (k after : Kept) → Reached k → Step k after → Reached after
