-- ===== src/Retry/Queue/Inflight.antt =====
-- A pass sends no more titles than its rate, and never has more in flight than it may.
use katalog_manager.Base.{
  ℕ, suc, ◌+◌, ◌≤◌, ◌≡◌, refl, ◌∙◌, Bool, true, false, not, Option, none, some, List, [], ◌∷◌,
  arith, any, count, keep, length, length-append, length-keep-le, max, Bool-cases, inl, inr, ◌==◌,
}
use katalog_manager.Base.Counting.{AreUnique, count-keys-le}
use katalog_manager.Base.Text.{Text}
use katalog_manager.Processing.Policy.{Policy}
use katalog_manager.Processing.Table.{Row}
use katalog_manager.Retry.Claim.{Claimed}
use katalog_manager.Retry.Dispatch.{Outcome, dispatch, as_reencode}
use katalog_manager.Retry.Reencode.{Reset, claimed, left}
use katalog_manager.Retry.Queue.{Entry, is_queued, is_sent}
use katalog_manager.Retry.Queue.Send.{
  World, Limits, Pass, Walk, update_entries, mark_entry, mark_queued, send_entry, note_sent,
  visit_reset, why_of, visit_as, visit, walk, note_not_sent, after_walk, note_outcome, rows_of,
  add_id, look_up, is_not_sent, first_words, send_queued, budget_of, start_walk, queued_first,
}
use katalog_manager.Retry.Queue.Writes.{Pairs, Writes, walk-Writes}

length-add_id-le : (o : Option ℕ) (ids : List ℕ) → length (add_id o ids) ≤ suc (length ids)
length-add_id-le none ids = omega arith
length-add_id-le (some id) ids = omega arith

length-rows_of-le :
    (row_of : List (ℕ × ℕ)) (cs : List Claimed) → length (rows_of row_of cs) ≤ length cs
unfolding rows_of
length-rows_of-le row_of [] = omega arith
length-rows_of-le row_of (c ∷ cs) = omega (
  arith,
  length-add_id-le (look_up c.item row_of) (rows_of row_of cs),
  length-rows_of-le row_of cs,
)

-- The titles reset stay within the budget.
visit_reset-chosen :
    (e : World) (now : ℕ) (q : Entry) (rows : List Row) (answer : Reset) (w : Walk)
    → length (visit_reset e now q rows answer w).chosen ≤ length w.chosen + 1
unfolding visit_reset
visit_reset-chosen e now q rows (left why) w = omega arith
visit_reset-chosen e now q rows (claimed none) w = omega arith
visit_reset-chosen e now q rows (claimed (some tr)) w =
    omega (arith, length-append {0} w.chosen (_ ∷ []))

visit_as-chosen :
    (e : World) (p : Policy) (now : ℕ) (q : Entry) (w : Walk) (o : Option Text)
    → length (visit_as e p now q w o).chosen ≤ length w.chosen + 1
unfolding visit_as
visit_as-chosen e p now q w none = visit_reset-chosen e now q _ _ w
visit_as-chosen e p now q w (some why) = omega arith

walk-chosen :
    (e : World) (p : Policy) (now budget : ℕ) (qs : List Entry) (w : Walk)
    → length w.chosen ≤ budget
    → length (walk e p now budget qs w).chosen ≤ budget
unfolding walk visit
walk-chosen e p now budget [] w h = h
walk-chosen e p now budget (q ∷ qs) w h = elim (Bool-cases (length w.chosen == budget)) [
  | inl k ↦ rw k h
  | inr k ↦
      let more = visit_as-chosen e p now q w (why_of e q.item) in
      rw k (walk-chosen e p now budget qs (visit e p now q w) (unfold visit in ground arith))
]

-- Marking a queued title sends none.
mark_queued-sent :
    (now id : ℕ) (fails : Bool) (why : Text) (qs : List Entry)
    → count is_sent (mark_queued now id fails why qs) ≡ count is_sent qs
unfolding mark_queued update_entries mark_entry count
mark_queued-sent now id fails why [] = refl
mark_queued-sent now id fails why (q ∷ qs) = ground (arith, mark_queued-sent now id fails why qs)

note_not_sent-sent :
    (now : ℕ) (why : Text) (ids : List ℕ) (qs : List Entry)
    → count is_sent (note_not_sent now why ids qs) ≡ count is_sent qs
unfolding note_not_sent
note_not_sent-sent now why [] qs = refl
note_not_sent-sent now why (id ∷ ids) qs =
    note_not_sent-sent now why ids (mark_queued now id false why qs)
    ∙ mark_queued-sent now id false why qs

visit_reset-sent :
    (e : World) (now : ℕ) (q : Entry) (rows : List Row) (answer : Reset) (w : Walk)
    → count is_sent (visit_reset e now q rows answer w).entries ≡ count is_sent w.entries
unfolding visit_reset
visit_reset-sent e now q rows (left why) w =
    mark_queued-sent now q.id false (e.busy_words why) w.entries
visit_reset-sent e now q rows (claimed none) w = refl
visit_reset-sent e now q rows (claimed (some tr)) w = refl

visit_as-sent :
    (e : World) (p : Policy) (now : ℕ) (q : Entry) (w : Walk) (o : Option Text)
    → count is_sent (visit_as e p now q w o).entries ≡ count is_sent w.entries
unfolding visit_as
visit_as-sent e p now q w none = visit_reset-sent e now q _ _ w
visit_as-sent e p now q w (some why) = mark_queued-sent now q.id true why w.entries

walk-sent :
    (e : World) (p : Policy) (now budget : ℕ) (qs : List Entry) (w : Walk)
    → count is_sent (walk e p now budget qs w).entries ≡ count is_sent w.entries
unfolding walk visit
walk-sent e p now budget [] w = refl
walk-sent e p now budget (q ∷ qs) w = elim (Bool-cases (length w.chosen == budget)) [
  | inl k ↦ rw k refl
  | inr k ↦ rw k (
      walk-sent e p now budget qs (visit e p now q w)
      ∙ (unfold visit in visit_as-sent e p now q w (why_of e q.item)))
]

-- Of titles noted as sent, no more are sent than were named.
note_sent-count :
    (now : ℕ) (ids : List ℕ) (qs : List Entry)
    → count is_sent (note_sent now ids qs)
      ≤ count is_sent qs + count (λ q. any (λ i. i == q.id) ids) qs
unfolding note_sent update_entries send_entry count
note_sent-count now ids [] = omega arith
note_sent-count now ids (q ∷ qs) = ground (arith, note_sent-count now ids qs)

-- Entries that keep their ids keep them unique.
Pairs-count :
    (n : ℕ) (qs rs : List Entry)
    → Pairs (Writes is_queued) qs rs
    → count (λ r. r.id == n) rs ≡ count (λ q. q.id == n) qs
unfolding count
Pairs-count n [] [] h = refl
Pairs-count n [] (r ∷ rs) h = elim h [ ]
Pairs-count n (q ∷ qs) [] h = elim h [ ]
Pairs-count n (q ∷ qs) (r ∷ rs) (h, hs) =
    let same = h.follows.same_id in rw same (omega (arith, Pairs-count n qs rs hs))

Pairs-AreUnique :
    (qs rs : List Entry)
    → Pairs (Writes is_queued) qs rs
    → AreUnique (λ q. q.id) qs
    → AreUnique (λ q. q.id) rs
Pairs-AreUnique [] [] h u = tt
Pairs-AreUnique [] (r ∷ rs) h u = elim h [ ]
Pairs-AreUnique (q ∷ qs) [] h u = elim h [ ]
Pairs-AreUnique (q ∷ qs) (r ∷ rs) (h, hs) (once, u) =
    (rw h.follows.same_id (Pairs-count q.id qs rs hs ∙ once), Pairs-AreUnique qs rs hs u)

module _ (now : ℕ) (w : Walk) (p : Pass) (o : List Row × Outcome) where
  note_outcome-sent :
      AreUnique (λ q. q.id) w.entries
      → count is_sent (note_outcome now w p o).1.0 ≤ count is_sent w.entries + length w.chosen
  unfolding note_outcome
  note_outcome-sent u =
      let sent_ids = rows_of w.row_of (keep (λ c. not (is_not_sent o.1.not_sent c)) w.chosen) in
      omega (
        arith,
        note_not_sent-sent now (first_words o.1.first) (rows_of w.row_of o.1.not_sent)
            (note_sent now sent_ids w.entries),
        note_sent-count now sent_ids w.entries,
        count-keys-le {0} (λ q. q.id) sent_ids w.entries u,
        length-rows_of-le w.row_of (keep (λ c. not (is_not_sent o.1.not_sent c)) w.chosen),
        length-keep-le {0} (λ c. not (is_not_sent o.1.not_sent c)) w.chosen,
      )

  note_outcome-rate : (note_outcome now w p o).1.1.sent ≤ length w.chosen
  unfolding note_outcome
  note_outcome-rate = omega (
    arith,
    length-rows_of-le w.row_of (keep (λ c. not (is_not_sent o.1.not_sent c)) w.chosen),
    length-keep-le {0} (λ c. not (is_not_sent o.1.not_sent c)) w.chosen,
  )

-- Of a queue whose entries have ids of their own, the sends leave no more titles in flight than
-- library.reencode.inflight allows, or than there were, and send no more than library.reencode.rate.
pub send_queued-inflight :
    (e : World) (p : Policy) (l : Limits) (now : ℕ) (rows : List Row) (qs : List Entry)
    (pass : Pass)
    → AreUnique (λ q. q.id) qs
    → pass.sent ≡ 0
    → let out = (send_queued e p l now rows qs pass).1 in
      (count is_sent out.0 ≤ max (count is_sent qs) l.inflight) × (out.1.sent ≤ l.rate)
unfolding send_queued after_walk
send_queued-inflight e p l now rows qs pass u z = elim (Bool-cases (budget_of l qs == 0)) [
  | inl h ↦ rw h (omega arith)
  | inr h ↦
      let w = walk e p now (budget_of l qs) (queued_first qs) (start_walk rows qs) in
      let o = dispatch e.publish e.says as_reencode now false 0 w.chosen w.rows in
      let ids =
        Pairs-AreUnique qs w.entries
          (walk-Writes e p now (budget_of l qs) (queued_first qs) (start_walk rows qs)) u in
      let few =
        walk-chosen e p now (budget_of l qs) (queued_first qs) (start_walk rows qs) (omega arith) in
      let same = walk-sent e p now (budget_of l qs) (queued_first qs) (start_walk rows qs) in
      rw h (
        omega (arith, note_outcome-sent now w pass o ids),
        omega (arith, note_outcome-rate now w pass o),
      )
]
