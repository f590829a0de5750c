-- ===== src/Retry/Queue/Ends.antt =====
-- When a title that was sent is done, when it failed, and when it is sent still.
use katalog_manager.Base.{
  ℕ, ◌+◌, ◌≡◌, ◌↔◌, refl, Bool, true, false, ◌||◌, List, [], ◌∷◌, arith, count, is_some,
  if◌then◌else◌,
}
use katalog_manager.Processing.Vocab.{transcode, pack}
use katalog_manager.Processing.Table.{Row, find_row}
use katalog_manager.Retry.Queue.{Entry, sent, done, failed, is_sent}
use katalog_manager.Retry.Queue.Finish.{
  finish_sent, finish_entry, count_end, ends, end_entry, end_reason, is_ended, package_done,
  package_passed_over, failed_for_good,
}

abbrev pub is_done : Entry → Bool
is_done q = elim q.state [ done ↦ true | _ ↦ false ]

abbrev pub has_failed : Entry → Bool
has_failed q = elim q.state [ failed ↦ true | _ ↦ false ]

-- A title sent is done exactly when its package is; it is sent still exactly when none of these
-- holds: its package is done or passed over, its transcode or its package failed with no retry
-- scheduled, or it has neither.
pub finish_entry-ends :
    (held : Entry → Bool) (now : ℕ) (rows : List Row) (q : Entry)
    → q.state ≡ sent
    → held q ≡ false
    → let t = find_row q.item transcode rows in
      let p = find_row q.item pack rows in
      let q' = finish_entry held now rows q in
      ((is_done q' ≡ true) ↔ (package_done p ≡ true))
      × ((is_sent q' ≡ true)
          ↔ (package_done p ≡ false)
            × (package_passed_over p ≡ false)
            × (failed_for_good t ≡ false)
            × (failed_for_good p ≡ false)
            × ((is_some t || is_some p) ≡ true))
unfolding finish_entry is_ended end_reason end_entry
finish_entry-ends held now rows q s h = ground arith

finish_entry-count :
    (held : Entry → Bool) (now : ℕ) (rows : List Row) (q : Entry) (d f : ℕ)
    → let q' = finish_entry held now rows q in
      let (d', f') = count_end (ends held rows q) q'.state (d, f) in
      ((if is_done q' then 1 else 0) + d ≡ (if is_done q then 1 else 0) + d')
      × ((if has_failed q' then 1 else 0) + f ≡ (if has_failed q then 1 else 0) + f')
      × ((if is_sent q' then 1 else 0) + d' + f' ≡ (if is_sent q then 1 else 0) + d + f)
unfolding finish_entry end_entry count_end
finish_entry-count held now rows q d f = ground arith

-- The counts of a pass are true: of the titles sent, as many more are done, and as many more failed,
-- as finishSent says, and the others are sent still.
pub finish_sent-count :
    (held : Entry → Bool) (now : ℕ) (rows : List Row) (qs : List Entry)
    → let (qs', (d, f)) = finish_sent held now rows qs in
      (count is_done qs' ≡ count is_done qs + d)
      × (count has_failed qs' ≡ count has_failed qs + f)
      × (count is_sent qs' + d + f ≡ count is_sent qs)
unfolding finish_sent count
finish_sent-count held now rows [] = (refl, refl, refl)
finish_sent-count held now rows (q ∷ qs) =
    let (_, (d, f)) = finish_sent held now rows qs in
    let here = finish_entry-count held now rows q d f in
    let rest = finish_sent-count held now rows qs in (omega arith, omega arith, omega arith)
