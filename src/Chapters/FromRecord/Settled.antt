-- ===== src/Chapters/FromRecord/Settled.antt =====
-- internal/chapters/backfill.go: FromRecord answers whether the record settled the title.
use katalog_manager.Base.{
  ℕ, ◌≡◌, refl, sym, ◌∙◌, inl, inr, Bool, true, false, ◌||◌, Option, some, is_some, List,
  Bool-cases, ==_refl, arith,
}
use katalog_manager.Base.Text.{Text, is_empty}
use katalog_manager.Chapters.Title.{Chapter, has_chapters}
use katalog_manager.Chapters.Read.{Read, Kept, from_record, by_reader, settles, held_of, of_source}
use katalog_manager.Chapters.Read.Settled.{
  needs_original, view_settles, settles-view_settles, Record,
}
use katalog_manager.Chapters.Take.{
  RecordRead, says, How, take_write, take_keep, take_none, take_stay, take_hold, take, put,
  set_rows_source,
}
use katalog_manager.Chapters.Take.Fewer.{Says, take-Says, has_chapters-put}
use katalog_manager.Chapters.FromRecord.{
  from_record_kept, take_record, settled_row, put_reason, noted,
}

-- The answer true: the title is settled of its original. The answer false: its chapters are as before.
abbrev Answers : ℕ → Kept → Bool × Kept → Type 0
Answers source k (true, after) =
    settles after.row (some source) (has_chapters after.chapters) ≡ true
Answers source k (false, after) = after.chapters ≡ k.chapters

module _ (source : ℕ) (rec : RecordRead) (now : ℕ) (reason : Text) where
  settled_none :
      (k : Kept)
      → has_chapters rec.chapters ≡ false
      → has_chapters k.chapters ≡ false
      → settles (settled_row source rec now reason k).row (some source) (has_chapters k.chapters)
        ≡ true
  unfolding settles settled_row held_of of_source
  settled_none k g h = ground (arith, ==_refl source)

  settled_some :
      (k : Kept)
      → has_chapters rec.chapters ≡ true
      → has_chapters k.chapters ≡ true
      → k.row.rows_source ≡ some source
      → settles (settled_row source rec now reason k).row (some source) (has_chapters k.chapters)
        ≡ true
  unfolding settles settled_row held_of of_source
  settled_some k g h e = ground (arith, ==_refl source)

rows_of :
    (got : List Chapter) (source : ℕ) (now : ℕ) (k : Kept)
    → has_chapters got ≡ true
    → (put got k.row.rows_source (some source) (by_reader from_record) now k).row.rows_source
      ≡ some source
unfolding put
rows_of got source now k g = rw g refl

module _ (source : ℕ) (present : Bool) (rec : RecordRead) (now : ℕ) (k : Kept) where
  take_record-Answers :
      (how : How) (why : Text)
      → Says k.chapters rec.chapters k.row.rows_source (some source) how
      → Answers source k (take_record source present rec now (how, why) k)
  unfolding take_record settled_row noted
  take_record-Answers take_write why s =
      let after = put rec.chapters k.row.rows_source (some source) (by_reader from_record) now k in
      settled_some source rec now (put_reason rec k) after s.0
        (has_chapters-put rec.chapters k.row.rows_source (some source) (by_reader from_record) now k
          ∙ s.0)
        (rows_of rec.chapters source now k s.0)
  take_record-Answers take_keep why s =
      settled_some source rec now _ (set_rows_source (some source) k) s.0 s.1 refl
  take_record-Answers take_none why s =
      let after = put rec.chapters k.row.rows_source (some source) (by_reader from_record) now k in
      settled_none source rec now (put_reason rec k) after s.0 (
        has_chapters-put rec.chapters k.row.rows_source (some source) (by_reader from_record) now k
        ∙ s.0)
  take_record-Answers take_stay why s = refl
  take_record-Answers take_hold why s = refl

  from_record_kept-Answers : Answers source k (from_record_kept source present rec now k)
  unfolding from_record_kept noted
  from_record_kept-Answers =
      let t = take k.chapters rec.chapters k.row.rows_source (some source) in
      let passed =
        is_some k.row.claimed_at
        || held_of k.row (some source)
        || settles k.row (some source) (has_chapters k.chapters) in
      elim (Bool-cases passed) [
        | inl e ↦ rw e refl
        | inr e ↦ rw e (elim (Bool-cases (is_empty rec.held)) [
          | inr h ↦ rw h refl
          | inl h ↦ rw h (elim (Bool-cases (says rec)) [
            | inr s ↦ rw s refl
            | inl s ↦ rw s (
                take_record-Answers t.0 t.1
                  (take-Says k.chapters rec.chapters k.row.rows_source (some source)))
          ])
        ])
      ]

when_true :
    (source : ℕ) (k : Kept) (a : Bool × Kept)
    → Answers source k a
    → a.0 ≡ true
    → settles a.1.row (some source) (has_chapters a.1.chapters) ≡ true
when_true source k (true, after) h e = h
when_true source k (false, after) h e = cc

when_false :
    (source : ℕ) (k : Kept) (a : Bool × Kept)
    → Answers source k a
    → a.0 ≡ false
    → a.1.chapters ≡ k.chapters
when_false source k (true, after) h e = cc
when_false source k (false, after) h e = h

not_needed :
    (c : Option Record) (r : Read) (source : ℕ) (chs : List Chapter) (asked : Option ℕ)
    → settles r (some source) (has_chapters chs) ≡ true
    → needs_original c (some r) (some source) chs asked ≡ false
unfolding needs_original
not_needed c r source chs asked h =
    let v : view_settles (some r) source (has_chapters chs) ≡ true =
      sym (settles-view_settles r source (has_chapters chs)) ∙ h in
    ground (arith, v)

-- When FromRecord answers that the source record settled the title, the title is not among those that
-- miss their chapters, of that original as its current one, whatever the compliance check's record says.
pub from_record_kept-needs_original :
    (source : ℕ) (present : Bool) (rec : RecordRead) (now : ℕ) (k : Kept) (c : Option Record)
    (asked : Option ℕ)
    → (from_record_kept source present rec now k).0 ≡ true
    → let after = (from_record_kept source present rec now k).1 in
      needs_original c (some after.row) (some source) after.chapters asked ≡ false
from_record_kept-needs_original source present rec now k c asked h =
    let a = from_record_kept source present rec now k in
    not_needed c a.1.row source a.1.chapters asked
      (when_true source k a (from_record_kept-Answers source present rec now k) h)

-- When it answers that it did not, the title's chapters are as before.
pub from_record_kept-false :
    (source : ℕ) (present : Bool) (rec : RecordRead) (now : ℕ) (k : Kept)
    → (from_record_kept source present rec now k).0 ≡ false
    → (from_record_kept source present rec now k).1.chapters ≡ k.chapters
from_record_kept-false source present rec now k h =
    when_false source k _ (from_record_kept-Answers source present rec now k) h
