-- ===== src/Chapters/Take/Keeps.antt =====
-- internal/chapters/chapters.go: what put changes of a title's chapters, it keeps to undo.
use katalog_manager.Base.{
  ℕ, ◌≡◌, refl, ◌∙◌, ◌⊎◌, inl, inr, false, ◌&&◌, Option, none, some, List, Bool-cases,
}
use katalog_manager.Chapters.Title.{Chapter, has_chapters, same, written}
use katalog_manager.Chapters.Read.{Read, Replaced, Replacer, Kept}
use katalog_manager.Chapters.Take.{replace, put}

-- The undo kept is as before, or it is used.
abbrev pub UndoStands : Kept → Kept → Type 0
UndoStands before after = (after.row.replaced ≡ before.row.replaced) ⊎ (after.row.replaced ≡ none)

-- The chapters of before are those of after; or others were written and there were none; or others were
-- written and those of before are kept to undo, with the original they were read of.
pub data IsUndoable (before after : Kept) : Type 0 where
  unchanged : after.chapters ≡ before.chapters → UndoStands before after → IsUndoable before after
  had_none :
      has_chapters before.chapters ≡ false
      → (got : List Chapter) → after.chapters ≡ written before.ids got
      → UndoStands before after
      → IsUndoable before after
  undo :
      (got : List Chapter)
      → after.chapters ≡ written before.ids got
      → (u : Replaced) → after.row.replaced ≡ some u
      → u.chapters ≡ before.chapters
      → u.source ≡ before.row.rows_source
      → IsUndoable before after

-- A title whose chapters and undo are as they were.
pub untouched :
    (k : Kept) (r : Read) → r.replaced ≡ k.row.replaced → IsUndoable k (record k { row = r })
untouched k r e = unchanged refl (inl e)

rewrite_undo :
    (k after : Kept) (r : Read)
    → r.replaced ≡ after.row.replaced
    → UndoStands k after
    → UndoStands k (record after { row = r })
rewrite_undo k after r e (inl h) = inl (e ∙ h)
rewrite_undo k after r e (inr h) = inr (e ∙ h)

-- What is said of a title's row besides changes nothing of it.
pub rewrite_row :
    (k after : Kept) (r : Read)
    → r.replaced ≡ after.row.replaced
    → IsUndoable k after
    → IsUndoable k (record after { row = r })
rewrite_row k after r e (unchanged h s) = unchanged h (rewrite_undo k after r e s)
rewrite_row k after r e (had_none h got w s) = had_none h got w (rewrite_undo k after r e s)
rewrite_row k after r e (undo got w u h c s) = undo got w u (e ∙ h) c s

pub replace-IsUndoable :
    (got : List Chapter) (by : Replacer) (now : ℕ) (k : Kept)
    → IsUndoable k (replace got k.row.rows_source by now k)
unfolding replace
replace-IsUndoable got by now k = elim (Bool-cases (has_chapters got && same k.chapters got)) [
  | inl e ↦ rw e (unchanged refl (inl refl))
  | inr e ↦ rw e (elim (Bool-cases (has_chapters k.chapters)) [
    | inl h ↦ rw h (undo got refl _ refl refl refl)
    | inr h ↦ rw h (had_none h got refl (inl refl))
  ])
]

pub put-IsUndoable :
    (got : List Chapter) (source : Option ℕ) (by : Replacer) (now : ℕ) (k : Kept)
    → IsUndoable k (put got k.row.rows_source source by now k)
unfolding put
put-IsUndoable got source by now k =
    let k' = replace got k.row.rows_source by now k in
    rewrite_row k k' _ refl (replace-IsUndoable got by now k)
