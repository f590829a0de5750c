-- ===== src/Chapters/Record/Undo.antt =====
-- internal/chapters/chapters.go: what Record replaces of a title's chapters, it keeps to undo.
use katalog_manager.Base.{ℕ, ◌≡◌, refl, inl, inr, Bool, not, ◌&&◌, Option, List, Bool-cases}
use katalog_manager.Base.Text.{Text}
use katalog_manager.Chapters.Title.{Chapter, has_chapters}
use katalog_manager.Chapters.Read.{Read, Reader, by_reader, Kept, end_claim}
use katalog_manager.Chapters.Take.{
  RecordRead, How, take_write, take_keep, take_none, take_stay, take_hold, take, put,
}
use katalog_manager.Chapters.Take.Keeps.{IsUndoable, unchanged, rewrite_row, put-IsUndoable}
use katalog_manager.Chapters.Report.{Report}
use katalog_manager.Chapters.Record.{record_kept, call_of, transient_failure}
use katalog_manager.Chapters.Record.Updates.{Call, only, failed, hold, keep, is_counted}
use katalog_manager.Chapters.Record.Settle.{settle, settle_as, keep_found, put_note}
use katalog_manager.Chapters.Record.Cases.{record_kept-cases}

module _ (c : Call) (got : List Chapter) (from : Reader) (confirmed : Bool) (read_path probe : Text)
    (secs : Option ℕ) (note : Text) (recorded : Bool) (k : Kept) where
  put_found :
      (note' : Text)
      → IsUndoable k (
          keep_found c got from confirmed read_path probe secs note' recorded
            (put got k.row.rows_source c.source (by_reader from) c.now k))
  unfolding keep_found keep
  put_found note' =
      let k' = put got k.row.rows_source c.source (by_reader from) c.now k in
      rewrite_row k k' _ refl (put-IsUndoable got c.source (by_reader from) c.now k)

  settle_as-IsUndoable :
      (how : How) (why : Text)
      → IsUndoable k
          (settle_as c (how, why) got from confirmed read_path probe secs note recorded k)
  unfolding settle_as keep_found keep only hold
  settle_as-IsUndoable take_write why = put_found (put_note note k)
  settle_as-IsUndoable take_keep why = unchanged refl (inl refl)
  settle_as-IsUndoable take_none why = put_found (put_note note k)
  settle_as-IsUndoable take_stay why = unchanged refl (inl refl)
  settle_as-IsUndoable take_hold why = unchanged refl (inl refl)

  settle-IsUndoable :
      IsUndoable k (settle c got from confirmed read_path probe secs note recorded k)
  unfolding settle keep_found keep
  settle-IsUndoable =
      elim (Bool-cases (not (has_chapters got) && not confirmed && has_chapters k.chapters)) [
        | inl e ↦ rw e (unchanged refl (inl refl))
        | inr e ↦
            let t = take k.chapters got k.row.rows_source c.source in
            rw e (settle_as-IsUndoable t.0 t.1)
      ]

failed-undo : (c : Call) (why : Text) (k : Read) → (failed c why k).replaced ≡ k.replaced
unfolding failed end_claim
failed-undo c why k = elim (Bool-cases (is_counted c.now k)) [
  | inl e ↦ rw e refl
  | inr e ↦ rw e refl
]

-- A report leaves a title's chapters as they are, or keeps those it replaces to undo.
pub record_kept-IsUndoable :
    (r : Report) (source : Option ℕ × Option ℕ) (rec : Option RecordRead) (said : Option Bool)
    (now : ℕ) (k : Kept)
    → IsUndoable k (record_kept r source rec said now k)
unfolding only hold transient_failure end_claim
record_kept-IsUndoable r source rec said now k =
    record_kept-cases (IsUndoable k) r source rec said now k (λ stale. unchanged refl (inl refl))
      (λ live. record {
        on_none = λ passed. unchanged refl (inl refl);
        on_only = λ why. unchanged refl (inl refl);
        on_release = λ own. unchanged refl (inl refl);
        on_transient = λ why idle. unchanged refl (inl refl);
        on_failed =
            λ why. unchanged refl (inl (failed-undo (call_of r source now k.row) why k.row));
        on_hold = λ why recorded. unchanged refl (inl refl);
        on_settle = λ got from confirmed path probe secs note recorded.
            settle-IsUndoable (call_of r source now k.row) got from confirmed path probe secs note
              recorded k;
      })
