-- ===== src/Chapters/Record/Nothing.antt =====
-- internal/chapters/chapters.go: what Record makes of a read of the header that found no chapter.
use katalog_manager.Base.{
  ℕ, Bool, true, false, not, ◌&&◌, Option, none, some, [], ◌++◌, length, is_some, if◌then◌else◌,
}
use katalog_manager.Base.Text.{Text, codes, trim_space, is_empty}
use katalog_manager.Chapters.Title.{has_chapters}
use katalog_manager.Chapters.Read.{
  ReadState, state_none, from_header, from_record, Kept, of_source, same_source, decimal,
}
use katalog_manager.Chapters.Take.{RecordRead, says}
use katalog_manager.Chapters.Report.{Report}
use katalog_manager.Chapters.Record.Updates.{Call, only, failed, hold}
use katalog_manager.Chapters.Record.Settle.{settle}

-- recordWhy
unfoldable pub record_why : Option RecordRead → Text
record_why none = codes "its original is not known"
record_why (some r) = elim r.err [
  | some e ↦ codes "its source record could not be read: " ++ e
  | none ↦ r.why
]

-- What the compliance check's record says of chapters, where it was asked.
abbrev pub says_some : Option Bool → Bool
says_some (some b) = b
says_some none = false

abbrev pub says_not : Option Bool → Bool
says_not (some b) = not b
says_not none = false

abbrev pub is_read : Option RecordRead → Bool
is_read (some r) = not (is_some r.err)
is_read none = false

unfoldable pub both_reason : Option RecordRead → Text
unfolding record_why
both_reason rec =
    codes "the header read found no chapter, and the source's record says it holds some ("
    ++ (record_why rec ++ codes ")")

unfoldable pub unconfirmed_reason : Option RecordRead → Text
unfolding record_why
unconfirmed_reason rec =
    codes "nothing confirms that the original holds no chapter: " ++ record_why rec

-- A none that the source record does not settle.
unfoldable pub record_unsaid : Call → Report → Option RecordRead → Option Bool → Kept → Kept
record_unsaid c r rec said k =
    if says_not said
    then settle c [] from_header true c.path c.probe c.seconds
        (codes "its source record says it holds no chapter") true k
    else if says_some said && is_read rec
    then record k { row = failed c (both_reason rec) k.row }
    else settle c [] from_header false c.path c.probe c.seconds (unconfirmed_reason rec) false k

unfoldable pub record_holds_reason : ℕ → ℕ → Text
unfolding decimal
record_holds_reason found chapters =
    codes "the header read found no chapter ("
    ++ (decimal found
        ++ (codes " marks); its source record holds "
            ++ (decimal chapters ++ codes ": read from it")))

abbrev or_else : Text → Text → Text
or_else t u = if is_empty t then u else t

-- A none, of an original whose source record holds no title for an admin.
unfoldable pub record_said : Call → Report → RecordRead → Option Bool → Kept → Kept
record_said c r rec said k =
    if says rec && has_chapters rec.chapters
    then settle c rec.chapters from_record false rec.path (codes "source record") none
        (record_holds_reason c.found (length rec.chapters)) true k
    else if says rec
    then settle c [] from_header true c.path c.probe c.seconds
        (or_else (trim_space r.read.note) rec.note) true k
    else record_unsaid c r (some rec) said k

-- A none, of an original whose source record was read.
unfoldable pub record_against : Call → Report → RecordRead → Option Bool → Kept → Kept
record_against c r rec said k =
    if not (is_empty rec.held)
    then record k { row = hold c rec.held true k.row }
    else record_said c r rec said k

abbrev pub against : Call → Report → Option RecordRead → Option Bool → Kept → Kept
against c r none said k = record_unsaid c r none said k
against c r (some rec) said k = record_against c r rec said k

abbrev pub stays : Text
stays = codes "a read found no chapter; the chapters read before of this original stay"

abbrev pub is_none : ReadState → Bool
is_none state_none = true
is_none _ = false

-- A read of the header that found none.
unfoldable pub record_none : Call → Report → Option RecordRead → Option Bool → Kept → Kept
record_none c r rec said k =
    if has_chapters k.chapters && same_source k.row.rows_source c.source
    then record k { row = only c stays k.row }
    else if is_none k.row.state
        && k.row.confirmed
        && of_source k.row c.source
        && not (has_chapters k.chapters)
    then record k { row = only c [] k.row }
    else against c r rec said k
