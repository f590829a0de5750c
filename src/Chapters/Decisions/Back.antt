-- ===== src/Chapters/Decisions/Back.antt =====
-- internal/chapters/backfill.go: a second revert takes the read's chapters back.
use katalog_manager.Base.{ℕ, ◌≡◌, refl, ◌∙◌, true, false, Option, some, List, All}
use katalog_manager.Base.Text.{Text}
use katalog_manager.Chapters.Title.{Chapter, has_chapters, same, written}
use katalog_manager.Chapters.Title.Kept.{AreDistinct, IsClean, written-AreDistinct}
use katalog_manager.Chapters.Read.{Replaced, by_admin, Kept}
use katalog_manager.Chapters.Take.{put, replace}
use katalog_manager.Chapters.Decisions.{done, revert_kept, revert_to, use_undo}

module _ (got : List Chapter) (current : Option ℕ) (by : Text) (now : ℕ) (k : Kept)
    (has : has_chapters k.chapters ≡ true) (given : has_chapters got ≡ true)
    (differ : same k.chapters got ≡ false) where
  revert_to-chapters : (revert_to got current by now k).chapters ≡ written k.ids got
  unfolding revert_to put replace use_undo
  revert_to-chapters = rw has (rw (given, differ) refl)

  revert_to-replaced :
      (revert_to got current by now k).row.replaced
      ≡ some (record { at = now; by = by_admin; source = k.row.rows_source; chapters = k.chapters })
  unfolding revert_to put replace use_undo
  revert_to-replaced = rw has (rw (given, differ) (rw has refl))

revert_kept-undo :
    (current : Option ℕ) (by : Text) (now : ℕ) (k : Kept) (u : Replaced)
    → k.row.replaced ≡ some u
    → has_chapters u.chapters ≡ true
    → revert_kept current by now k ≡ done (revert_to u.chapters current by now k)
unfolding revert_kept
revert_kept-undo current by now k u e h = rw e (rw h refl)

-- A title's chapters, and its chapters kept to undo, which differ from them: where both are some, have
-- clean titles and are in the order of their ordinals and starts, no two with the same of both, a revert
-- puts the kept ones back, and a second one the first again, whatever ids are drawn for them.
pub revert_kept-revert_kept :
    (current later_current : Option ℕ) (by later_by : Text) (now later : ℕ) (k : Kept)
    (u : Replaced)
    → k.row.replaced ≡ some u
    → has_chapters u.chapters ≡ true
    → has_chapters k.chapters ≡ true
    → AreDistinct u.chapters
    → All IsClean u.chapters
    → AreDistinct k.chapters
    → All IsClean k.chapters
    → same k.chapters u.chapters ≡ false
    → same u.chapters k.chapters ≡ false
    → (once : Kept) × (twice : Kept) × (revert_kept current by now k ≡ done once)
      × (once.chapters ≡ u.chapters)
      × (revert_kept later_current later_by later once ≡ done twice)
      × (twice.chapters ≡ k.chapters)
revert_kept-revert_kept current later_current by later_by now later k u e given has ou cu ok ck d
      back_differ =
    let once = revert_to u.chapters current by now k in
    let v : Replaced = record {
      at = now;
      by = by_admin;
      source = k.row.rows_source;
      chapters = k.chapters;
    } in
    let back : once.chapters ≡ u.chapters =
      revert_to-chapters u.chapters current by now k has given d
      ∙ written-AreDistinct k.ids u.chapters ou cu in
    (
      once,
      revert_to k.chapters later_current later_by later once,
      revert_kept-undo current by now k u e given,
      back,
      revert_kept-undo later_current later_by later once v
          (revert_to-replaced u.chapters current by now k has given d) has,
      revert_to-chapters k.chapters later_current later_by later once (rw back given) has
            (rw back back_differ)
          ∙ written-AreDistinct once.ids k.chapters ok ck,
    )
