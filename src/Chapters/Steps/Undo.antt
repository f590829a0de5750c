-- ===== src/Chapters/Steps/Undo.antt =====
-- internal/chapters: no step of a title loses chapters that it does not keep to undo.
use katalog_manager.Base.{
  ℕ, ◌≡◌, refl, sym, inl, inr, Bool, not, ◌&&◌, ◌||◌, Option, none, some, List, is_some, Bool-cases,
}
use katalog_manager.Base.Text.{Text, is_empty}
use katalog_manager.Chapters.Title.{Chapter, has_chapters}
use katalog_manager.Chapters.Read.{
  Replaced, by_admin, by_reader, from_record, Reader, Kept, same_source, settles, held_of,
}
use katalog_manager.Chapters.Take.{
  RecordRead, says, How, take_write, take_keep, take_none, take_stay, take_hold, take, put,
}
use katalog_manager.Chapters.Take.Keeps.{
  IsUndoable, unchanged, had_none, undo, rewrite_row, put-IsUndoable,
}
use katalog_manager.Chapters.Record.Undo.{record_kept-IsUndoable}
use katalog_manager.Chapters.FromRecord.{
  from_record_kept, take_record as take_rec, settled_row, noted, put_reason, record_later,
}
use katalog_manager.Chapters.Decisions.{
  Taking, take_catalog, take_record, Decision, refuses, done, accept_kept, accept_taking,
  accept_held, accept_found, revert_undo, accept_unreadable, record_chapters, is_unreadable,
  is_held, takes_record, revert_kept, revert_to, use_undo,
}
use katalog_manager.Chapters.Waits.{expire_row, transient_row, hand_out_row}
use katalog_manager.Chapters.Steps.{
  Step, reported, recorded, postponed, lapsed, passed_over, handed_out, accepted, reverted,
}

module _ (source : ℕ) (present : Bool) (rec : RecordRead) (now : ℕ) (k : Kept) where
  put_record :
      (reason : Text)
      → IsUndoable k (
          settled_row source rec now reason
            (put rec.chapters k.row.rows_source (some source) (by_reader from_record) now k))
  unfolding settled_row
  put_record reason =
      let by = by_reader from_record in
      let k' = put rec.chapters k.row.rows_source (some source) by now k in
      rewrite_row k k' _ refl (put-IsUndoable rec.chapters (some source) by now k)

  take_record-IsUndoable :
      (how : How) (why : Text) → IsUndoable k (take_rec source present rec now (how, why) k).1
  unfolding take_rec settled_row noted
  take_record-IsUndoable take_write why = put_record (put_reason rec k)
  take_record-IsUndoable take_keep why = unchanged refl (inl refl)
  take_record-IsUndoable take_none why = put_record (put_reason rec k)
  take_record-IsUndoable take_stay why = unchanged refl (inl refl)
  take_record-IsUndoable take_hold why = unchanged refl (inl refl)

  from_record_kept-IsUndoable : IsUndoable k (from_record_kept source present rec now k).1
  unfolding from_record_kept noted
  from_record_kept-IsUndoable =
      let t = take k.chapters rec.chapters k.row.rows_source (some source) in
      let passed =
        is_some k.row.claimed_at
        || held_of k.row (some source)
        || settles k.row (some source) (has_chapters k.chapters) in
      elim (Bool-cases passed) [
        | inl e ↦ rw e (unchanged refl (inl refl))
        | inr e ↦ rw e (elim (Bool-cases (is_empty rec.held)) [
          | inr h ↦ rw h (unchanged refl (inl refl))
          | inl h ↦ rw h (elim (Bool-cases (says rec)) [
            | inr s ↦ rw s (unchanged refl (inl refl))
            | inl s ↦ rw s (take_record-IsUndoable t.0 t.1)
          ])
        ])
      ]

-- What a decision makes of a title.
abbrev Undoes : Kept → Decision → Type 0
Undoes k (refuses why) = Unit
Undoes k (done after) = IsUndoable k after

accept_held-IsUndoable :
    (taking : Taking) (got : List Chapter) (from : Reader) (current : ℕ) (by : Text) (now : ℕ)
    (k : Kept)
    → IsUndoable k (accept_held taking got from current by now k)
unfolding accept_held
accept_held-IsUndoable taking got from current by now k =
    let k' = put got k.row.rows_source (some current) by_admin now k in
    rewrite_row k k' _ refl (put-IsUndoable got (some current) by_admin now k)

accept_found-Undoes :
    (got : Option (List Chapter)) (rec : RecordRead) (current : ℕ) (by : Text) (now : ℕ) (k : Kept)
    → Undoes k (accept_found got rec current by now k)
accept_found-Undoes none rec current by now k = tt
accept_found-Undoes (some got) rec current by now k = accept_held-IsUndoable _ _ _ _ _ _ k

accept_taking-Undoes :
    (taking : Taking) (rec : RecordRead) (current : ℕ) (by : Text) (now : ℕ) (k : Kept)
    → Undoes k (accept_taking taking rec current by now k)
unfolding accept_taking
accept_taking-Undoes take_catalog rec current by now k = accept_held-IsUndoable _ _ _ _ _ _ k
accept_taking-Undoes take_record rec current by now k =
    accept_found-Undoes (record_chapters rec) rec current by now k

accept_kept-Undoes :
    (taking : Taking) (rec : RecordRead) (current : ℕ) (by : Text) (now : ℕ) (k : Kept)
    → Undoes k (accept_kept taking rec current by now k)
unfolding accept_kept accept_unreadable
accept_kept-Undoes taking rec current by now k =
    elim (Bool-cases (not (is_unreadable k.row.state) && not (is_held k.row.state))) [
      | inl e ↦ rw e tt
      | inr e ↦ rw e (elim (Bool-cases (same_source k.row.source (some current))) [
        | inr s ↦ rw s tt
        | inl s ↦ rw s (elim (Bool-cases (is_unreadable k.row.state && takes_record taking)) [
          | inl t ↦ rw t tt
          | inr t ↦ rw t (elim (Bool-cases (is_unreadable k.row.state)) [
            | inl u ↦ rw u (unchanged refl (inl refl))
            | inr u ↦ rw u (accept_taking-Undoes taking rec current by now k)
          ])
        ])
      ])
    ]

undo_used :
    (k after : Kept)
    → IsUndoable (record k { row = record k.row { replaced = none } }) after
    → IsUndoable k after
undo_used k after (unchanged c (inl s)) = unchanged c (inr s)
undo_used k after (unchanged c (inr s)) = unchanged c (inr s)
undo_used k after (had_none h got w (inl s)) = had_none h got w (inr s)
undo_used k after (had_none h got w (inr s)) = had_none h got w (inr s)
undo_used k after (undo got w u h c s) = undo got w u h c s

use_undo-IsUndoable : (k after : Kept) → IsUndoable (use_undo k) after → IsUndoable k after
unfolding use_undo
use_undo-IsUndoable k after u = elim (Bool-cases (has_chapters k.chapters)) [
  | inl e ↦ rw e at u
  | inr e ↦ undo_used k after (rw e at u)
]

use_undo-rows : (k : Kept) → (use_undo k).row.rows_source ≡ k.row.rows_source
unfolding use_undo
use_undo-rows k = elim (Bool-cases (has_chapters k.chapters)) [
  | inl e ↦ rw e refl
  | inr e ↦ rw e refl
]

put_of :
    (got : List Chapter) (rows current : Option ℕ) (now : ℕ) (k : Kept)
    → rows ≡ k.row.rows_source
    → IsUndoable k (put got rows current by_admin now k)
put_of got rows current now k e = rw e (put-IsUndoable got current by_admin now k)

revert_to-IsUndoable :
    (got : List Chapter) (current : Option ℕ) (by : Text) (now : ℕ) (k : Kept)
    → IsUndoable k (revert_to got current by now k)
unfolding revert_to
revert_to-IsUndoable got current by now k =
    let k' = put got k.row.rows_source current by_admin now (use_undo k) in
    let u = put_of got k.row.rows_source current now (use_undo k) (sym (use_undo-rows k)) in
    rewrite_row k k' _ refl (use_undo-IsUndoable k k' u)

revert_undo-Undoes :
    (u : Option Replaced) (current : Option ℕ) (by : Text) (now : ℕ) (k : Kept)
    → Undoes k (revert_undo u current by now k)
revert_undo-Undoes none current by now k = tt
revert_undo-Undoes (some u) current by now k = elim (Bool-cases (has_chapters u.chapters)) [
  | inl e ↦ rw e (revert_to-IsUndoable u.chapters current by now k)
  | inr e ↦ rw e tt
]

done-IsUndoable : (k after : Kept) (d : Decision) → Undoes k d → d ≡ done after → IsUndoable k after
done-IsUndoable k after d u e = let v : Undoes k (done after) = rw e at u in v

-- A step of a title leaves its chapters as they are, or it had none, or the chapters that it had are
-- kept to undo, with the original they were read of.
pub Step-IsUndoable : (k after : Kept) → Step k after → IsUndoable k after
unfolding record_later expire_row transient_row hand_out_row revert_kept
Step-IsUndoable _ _ (reported r source rec said now k) =
    record_kept-IsUndoable r source rec said now k
Step-IsUndoable _ _ (recorded source present rec now k) =
    from_record_kept-IsUndoable source present rec now k
Step-IsUndoable _ _ (postponed why now k) = unchanged refl (inl refl)
Step-IsUndoable _ _ (lapsed why now k) = unchanged refl (inl refl)
Step-IsUndoable _ _ (passed_over why now k) = unchanged refl (inl refl)
Step-IsUndoable _ _ (handed_out worker token now k) = unchanged refl (inl refl)
Step-IsUndoable _ _ (accepted taking rec current by now k after e) =
    done-IsUndoable k after _ (accept_kept-Undoes taking rec current by now k) e
Step-IsUndoable _ _ (reverted current by now k after e) =
    done-IsUndoable k after _ (revert_undo-Undoes k.row.replaced current by now k) e
