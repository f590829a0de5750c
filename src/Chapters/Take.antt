-- ===== src/Chapters/Take.antt =====
-- internal/chapters/chapters.go: how a read's chapters take the catalog's (take), what is kept to undo
-- (put), and what a source record says (RecordRead of records.go).
pub mod Fewer
pub mod Keeps
use katalog_manager.Base.{
  ℕ, ◌+◌, Bool, true, false, not, ◌&&◌, ◌||◌, Option, none, some, List, [], ◌∷◌, ◌++◌, length,
  is_some, leb, if◌then◌else◌,
}
use katalog_manager.Base.Text.{Text, codes, is_empty}
use katalog_manager.Chapters.Title.{Chapter, has_chapters, same, written}
use katalog_manager.Chapters.Read.{Read, Replacer, Replaced, Kept, same_source, decimal}

-- RecordRead; the empty text is no note, none held, or no reason, and none no error of the storage.
pub record RecordRead : Type 0 where
  pub path : Text
  pub found : ℕ
  pub chapters : List Chapter
  pub note : Text
  pub held : Text
  pub why : Text
  pub err : Option Text

-- Says
unfoldable pub says : RecordRead → Bool
says r = is_empty r.why && not (is_some r.err) && is_empty r.held

-- The ways a read takes the chapters in the catalog.
pub data How : Type 0 where
  take_write take_keep take_none take_stay take_hold : How

-- rowsSource is another original than the read's.
unfoldable pub is_other : Option ℕ → Option ℕ → Bool
is_other rows source = is_some rows && not (same_source rows source)

abbrev earlier : Option ℕ → Option ℕ → Text
earlier rows source =
    if is_some rows && not (is_other rows source)
    then codes "an earlier read of this original"
    else codes "an earlier read"

unfoldable pub fewer_reason : ℕ → ℕ → Option ℕ → Option ℕ → Text
unfolding decimal is_other
fewer_reason got have rows source =
    codes "it holds "
    ++ (decimal got
        ++ (codes " chapters, the catalog "
            ++ (decimal have
                ++ (codes " of " ++ (earlier rows source ++ codes ": an admin decides")))))

unfoldable pub none_reason : ℕ → Option ℕ → Option ℕ → Text
unfolding decimal is_other
none_reason have rows source =
    codes "it holds no chapter with a length, the catalog "
    ++ (decimal have ++ (codes " of " ++ (earlier rows source ++ codes ": an admin decides")))

-- take
unfoldable pub take : List Chapter → List Chapter → Option ℕ → Option ℕ → How × Text
unfolding is_other fewer_reason none_reason same
take have got rows source =
    let other = is_other rows source in
    if has_chapters got && has_chapters have && same have got
    then (take_keep, [])
    else if has_chapters got && (not (has_chapters have) || other || leb (length have) (length got))
    then (take_write, [])
    else if has_chapters got
    then (take_hold, fewer_reason (length got) (length have) rows source)
    else if not (has_chapters have) || other
    then (take_none, [])
    else if is_some rows
    then (take_stay, [])
    else (take_hold, none_reason (length have) rows source)

abbrev kept_to_undo : List Chapter → Replaced → Read → Read
kept_to_undo have undo r = if has_chapters have then record r { replaced = some undo } else r

-- The change of put, before the original of the chapters is set: have is what the catalog holds.
unfoldable pub replace : List Chapter → Option ℕ → Replacer → ℕ → Kept → Kept
unfolding same written
replace got rows by now k = if has_chapters got && same k.chapters got then k else record {
  row =
      kept_to_undo k.chapters (record { at = now; by = by; source = rows; chapters = k.chapters })
        k.row;
  chapters = written k.ids got;
  ids = λ i. k.ids (length got + i);
}

abbrev pub set_rows_source : Option ℕ → Kept → Kept
set_rows_source source k = record k { row = record k.row { rows_source = source } }

-- put
unfoldable pub put : List Chapter → Option ℕ → Option ℕ → Replacer → ℕ → Kept → Kept
unfolding replace
put got rows source by now k =
    set_rows_source (if has_chapters got then source else none) (replace got rows by now k)

-- replacedNote
unfoldable pub replaced_note : Text → ℕ → Text
unfolding decimal
replaced_note note n =
    let s = codes "the " ++ (decimal n ++ codes " chapters it had before replaced, kept to undo") in
    if is_empty note then s else note ++ (codes "; " ++ s)
