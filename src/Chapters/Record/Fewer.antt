-- ===== src/Chapters/Record/Fewer.antt =====
-- internal/chapters/chapters.go: no report takes chapters of the same original away, or of none known.
use katalog_manager.Base.{ℕ, refl, inl, inr, Bool, not, ◌&&◌, Option, List, Bool-cases}
use katalog_manager.Base.Text.{Text}
use katalog_manager.Chapters.Title.{Chapter, has_chapters}
use katalog_manager.Chapters.Read.{Reader, by_reader, Kept}
use katalog_manager.Chapters.Take.{
  RecordRead, How, take_write, take_keep, take_none, take_stay, take_hold, take,
}
use katalog_manager.Chapters.Take.Fewer.{NoLoss, stands, Says, take-Says, put-NoLoss, none-fewer}
use katalog_manager.Chapters.Report.{Report}
use katalog_manager.Chapters.Record.{record_kept, call_of}
use katalog_manager.Chapters.Record.Cases.{record_kept-cases}
use katalog_manager.Chapters.Record.Updates.{Call}
use katalog_manager.Chapters.Record.Settle.{settle, settle_as, keep_found}

abbrev Stands : Call → Kept → Kept → Type 0
Stands c k after = NoLoss k.row.rows_source c.source k.chapters after.chapters

module _ (c : Call) (got : List Chapter) (from : Reader) (confirmed : Bool) (read_path probe : Text)
    (secs : Option ℕ) (note : Text) (recorded : Bool) (k : Kept) where
  settle_as-Stands :
      (how : How) (why : Text)
      → Says k.chapters got k.row.rows_source c.source how
      → Stands c k (settle_as c (how, why) got from confirmed read_path probe secs note recorded k)
  unfolding settle_as keep_found
  settle_as-Stands take_write why s = put-NoLoss got c.source (by_reader from) c.now k s.1
  settle_as-Stands take_keep why s = stands refl
  settle_as-Stands take_none why s =
      put-NoLoss got c.source (by_reader from) c.now k
        (none-fewer k.chapters got k.row.rows_source c.source s)
  settle_as-Stands take_stay why s = stands refl
  settle_as-Stands take_hold why s = stands refl

  settle-Stands : Stands c k (settle c got from confirmed read_path probe secs note recorded k)
  unfolding settle keep_found
  settle-Stands =
      let t = take k.chapters got k.row.rows_source c.source in
      elim (Bool-cases (not (has_chapters got) && not confirmed && has_chapters k.chapters)) [
        | inl e ↦ rw e (stands refl)
        | inr e ↦
            rw e (settle_as-Stands t.0 t.1 (take-Says k.chapters got k.row.rows_source c.source))
      ]

-- A report of a read of an original leaves the title's chapters in the catalog as they are, or they were
-- of another original than the one read, or there are as many chapters or more after it: it takes none
-- away that were read of that original, or of no original known, without putting as many in their place.
pub record_kept-NoLoss :
    (r : Report) (source : Option ℕ × Option ℕ) (rec : Option RecordRead) (said : Option Bool)
    (now : ℕ) (k : Kept)
    → NoLoss k.row.rows_source source.0 k.chapters (record_kept r source rec said now k).chapters
unfolding call_of
record_kept-NoLoss r source rec said now k =
    let c = call_of r source now k.row in
    record_kept-cases (Stands c k) r source rec said now k (λ stale. stands refl)
      (λ live. record {
        on_none = λ passed. stands refl;
        on_only = λ why. stands refl;
        on_release = λ own. stands refl;
        on_transient = λ why idle. stands refl;
        on_failed = λ why. stands refl;
        on_hold = λ why recorded. stands refl;
        on_settle = λ got from confirmed path probe secs note recorded.
            settle-Stands c got from confirmed path probe secs note recorded k;
      })
