-- ===== src/Chapters/Record/Cases.antt =====
-- internal/chapters/chapters.go: what Record comes to, a case for each of its updates.
use katalog_manager.Base.{
  ℕ, ◌≡◌, refl, ◌⊎◌, inl, inr, Bool, true, false, not, ◌&&◌, ◌||◌, Option, none, some, List, [],
  Bool-cases, if◌then◌else◌, arith,
}
use katalog_manager.Base.Text.{Text, trim_space}
use katalog_manager.Chapters.Title.{Chapter, has_chapters}
use katalog_manager.Chapters.Read.{
  state_pending, state_read, state_none, state_failed, state_unreadable, state_held, Read, Reader,
  Kept, same_source, of_source, settles, held_of,
}
use katalog_manager.Chapters.Take.{RecordRead, says}
use katalog_manager.Chapters.Report.{Report, Outcome, release, leaves, refused, state}
use katalog_manager.Chapters.Record.{
  record_as, record_kept, record_failure, transient_failure, release_row, call_of,
}
use katalog_manager.Chapters.Record.Claims.{is_stale, is_newer}
use katalog_manager.Chapters.Record.Updates.{Call, only, failed, hold}
use katalog_manager.Chapters.Record.Settle.{settle}
use katalog_manager.Chapters.Record.Nothing.{
  record_none, record_against, record_said, record_unsaid, against, is_none, stays,
}

-- A read that failed changes nothing that settles or holds its title.
abbrev IsOpen : Call → Kept → Type 0
IsOpen c k =
    (settles k.row c.source (has_chapters k.chapters) ≡ false) × (held_of k.row c.source ≡ false)

abbrev pub IsRefused : Outcome → Type 0
IsRefused (refused why) = Unit
IsRefused _ = ⊥

-- A property that each update of Record has.
pub record Branches (P : Kept → Type 0) (c : Call) (o : Outcome) (k : Kept) : Type 0 where
  pub on_none : (c.own ≡ false) ⊎ IsRefused o → P k
  pub on_only : (why : Text) → P (record k { row = only c why k.row })
  pub on_release : c.own ≡ true → P (record k { row = release_row c k.row })
  pub on_transient :
      (why : Text) → IsOpen c k → P (record k { row = transient_failure c why k.row })
  pub on_failed : (why : Text) → P (record k { row = failed c why k.row })
  pub on_hold : (why : Text) (recorded : Bool) → P (record k { row = hold c why recorded k.row })
  pub on_settle :
      (got : List Chapter) (from : Reader) (confirmed : Bool) (path probe : Text) (secs : Option ℕ)
      (note : Text) (recorded : Bool)
      → P (settle c got from confirmed path probe secs note recorded k)

-- A property of both branches of an if.
branch : {A : Type 0} (P : A → Type 0) (b : Bool) (x y : A) → P x → P y → P (if b then x else y)
branch P true x y p q = p
branch P false x y p q = q

branch_by :
    {A : Type 0} (P : A → Type 0) (b : Bool) (x y : A)
    → (b ≡ true → P x)
    → (b ≡ false → P y)
    → P (if b then x else y)
branch_by P true x y p q = p refl
branch_by P false x y p q = q refl

is_open :
    (c : Call) (k : Kept) (newer : Bool)
    → (newer || settles k.row c.source (has_chapters k.chapters) || held_of k.row c.source) ≡ false
    → IsOpen c k
is_open c k newer e = ground arith

module _ (P : Kept → Type 0) (c : Call) (r : Report) (said : Option Bool) (k : Kept) (o : Outcome)
    (b : Branches P c o k) where
  record_failure-P : (newer : Bool) → P (record k { row = record_failure c r newer k })
  unfolding record_failure
  record_failure-P newer =
      let Q = λ (row : Read). P (record k { row = row }) in
      branch Q _ _ _ (b.on_only _) (
        branch_by Q _ _ _ (λ e. b.on_only [])
          (λ e. branch Q _ _ _ (b.on_transient _ (is_open c k newer e)) (b.on_failed _)))

  record_unsaid-P : (rec : Option RecordRead) → P (record_unsaid c r rec said k)
  unfolding record_unsaid
  record_unsaid-P rec =
      branch P _ _ _ (b.on_settle _ _ _ _ _ _ _ _)
        (branch P _ _ _ (b.on_failed _) (b.on_settle _ _ _ _ _ _ _ _))

  record_said-P : (rec : RecordRead) → P (record_said c r rec said k)
  unfolding record_said
  record_said-P rec = elim (Bool-cases (says rec && has_chapters rec.chapters)) [
    | inl e ↦ rw e (b.on_settle _ _ _ _ _ _ _ _)
    | inr e ↦ rw e (branch P _ _ _ (b.on_settle _ _ _ _ _ _ _ _) (record_unsaid-P (some rec)))
  ]

  record_against-P : (rec : RecordRead) → P (record_against c r rec said k)
  unfolding record_against
  record_against-P rec = branch P _ _ _ (b.on_hold _ _) (record_said-P rec)

  against-P : (rec : Option RecordRead) → P (against c r rec said k)
  against-P none = record_unsaid-P none
  against-P (some rec) = record_against-P rec

  record_none-P : (rec : Option RecordRead) → P (record_none c r rec said k)
  unfolding record_none
  record_none-P rec =
      let Q = λ (x : Kept). P x in
      branch Q (has_chapters k.chapters && same_source k.row.rows_source c.source) _ _
        (b.on_only stays)
        (branch Q
          (is_none k.row.state
            && k.row.confirmed
            && of_source k.row c.source
            && not (has_chapters k.chapters))
          _ _ (b.on_only []) (against-P rec))

  record_nothing-P :
      (newer : Bool) (rec : Option RecordRead)
      → P (if newer then record k { row = only c [] k.row } else record_none c r rec said k)
  record_nothing-P newer rec = branch P _ _ _ (b.on_only []) (record_none-P rec)

  record_release-P : P (if c.own then record k { row = release_row c k.row } else k)
  record_release-P = branch_by P _ _ _ b.on_release (λ e. b.on_none (inl e))

module _ (P : Kept → Type 0) (c : Call) (r : Report) (said : Option Bool) (k : Kept) where
  record_as-P :
      (o : Outcome)
      → Branches P c o k
      → (newer : Bool) (rec : Option RecordRead) → P (record_as c r newer rec said o k)
  unfolding record_as
  record_as-P (refused why) b newer rec = b.on_none (inr tt)
  record_as-P release b newer rec = record_release-P P c r said k release b
  record_as-P (leaves state_failed) b newer rec = record_failure-P P c r said k _ b newer
  record_as-P (leaves state_read) b newer rec =
      branch P _ _ _ (b.on_only []) (b.on_settle _ _ _ _ _ _ _ _)
  record_as-P (leaves state_pending) b newer rec = record_nothing-P P c r said k _ b newer rec
  record_as-P (leaves state_none) b newer rec = record_nothing-P P c r said k _ b newer rec
  record_as-P (leaves state_unreadable) b newer rec = record_nothing-P P c r said k _ b newer rec
  record_as-P (leaves state_held) b newer rec = record_nothing-P P c r said k _ b newer rec

-- What all the updates have, and a title that a report leaves alone, a title has after a report.
pub record_kept-cases :
    (P : Kept → Type 0) (r : Report) (source : Option ℕ × Option ℕ) (rec : Option RecordRead)
    (said : Option Bool) (now : ℕ) (k : Kept)
    → (is_stale (trim_space r.token) k.row ≡ true → P k)
    → (is_stale (trim_space r.token) k.row ≡ false
        → Branches P (call_of r source now k.row) (state r) k)
    → P (record_kept r source rec said now k)
unfolding record_kept
record_kept-cases P r source rec said now k p b =
    let token = trim_space r.token in
    let c = call_of r source now k.row in
    elim (Bool-cases (is_stale token k.row)) [
      | inl e ↦ rw e (p e)
      | inr e ↦ rw e (record_as-P P c r said k (state r) (b e) (is_newer token k.row) rec)
    ]
