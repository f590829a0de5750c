-- ===== src/Chapters/Record/Settle.antt =====
-- internal/chapters/chapters.go: settle, which takes what a read of the original found.
use katalog_manager.Base.{ℕ, Bool, not, ◌&&◌, Option, List, length, if◌then◌else◌}
use katalog_manager.Base.Text.{Text, codes}
use katalog_manager.Chapters.Title.{Chapter, has_chapters}
use katalog_manager.Chapters.Read.{ReadState, state_read, state_none, Reader, by_reader, Kept}
use katalog_manager.Chapters.Take.{
  How, take_keep, take_stay, take_hold, take, put, replaced_note, set_rows_source,
}
use katalog_manager.Chapters.Record.Updates.{Call, only, keep, hold, count_of}

abbrev found_state : List Chapter → ReadState
found_state got = if has_chapters got then state_read else state_none

-- The end of settle.
unfoldable pub keep_found :
    Call → List Chapter → Reader → Bool → Text → Text → Option ℕ → Text → Bool → Kept → Kept
keep_found c got from confirmed read_path read_probe secs note recorded k = record k {
  row =
      keep c (found_state got) from confirmed read_path read_probe (count_of got) secs note recorded
        k.row;
}

abbrev pub put_note : Text → Kept → Text
put_note note k = if has_chapters k.chapters then replaced_note note (length k.chapters) else note

-- settle, of what take answers.
unfoldable pub settle_as :
    Call
    → How × Text
    → List Chapter
    → Reader
    → Bool
    → Text
    → Text
    → Option ℕ
    → Text
    → Bool
    → Kept
    → Kept
settle_as c (take_hold, why) got from confirmed read_path read_probe secs note recorded k =
    record k { row = hold c why recorded k.row }
settle_as c (take_stay, why) got from confirmed read_path read_probe secs note recorded k =
    record k {
      row =
          only c (codes "a read found no chapter; the chapters read before of this original stay")
            k.row;
    }
settle_as c (take_keep, why) got from confirmed read_path read_probe secs note recorded k =
    keep_found c got from confirmed read_path read_probe secs
      (codes "the chapters in the catalog are those it read") recorded (set_rows_source c.source k)
settle_as c (how, why) got from confirmed read_path read_probe secs note recorded k =
    keep_found c got from confirmed read_path read_probe secs (put_note note k) recorded
      (put got k.row.rows_source c.source (by_reader from) c.now k)

-- settle
unfoldable pub settle :
    Call → List Chapter → Reader → Bool → Text → Text → Option ℕ → Text → Bool → Kept → Kept
settle c got from confirmed read_path read_probe secs note recorded k =
    if not (has_chapters got) && not confirmed && has_chapters k.chapters
    then keep_found c got from confirmed read_path read_probe secs note recorded k
    else settle_as c (take k.chapters got k.row.rows_source c.source) got from confirmed read_path
        read_probe secs note recorded k
