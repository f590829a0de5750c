-- ===== src/Retry/Queue/Writes.antt =====
-- What a pass writes of the queue's entries: the statements of a pass keep each entry's title and place,
-- and write those that are queued alone.
use katalog_manager.Base.{
  ℕ, ◌≡◌, refl, sym, ap, ◌∙◌, Bool, true, false, not, ◌&&◌, Option, none, some, List, [], ◌∷◌,
  arith, any, Bool-cases, inl, inr, ◌==◌, length, keep,
}
use mathlib.Core.Path.{subst}
use katalog_manager.Base.Text.{Text}
use katalog_manager.Processing.Policy.{Policy}
use katalog_manager.Processing.Table.{Row}
use katalog_manager.Retry.Dispatch.{Outcome, dispatch, as_reencode}
use katalog_manager.Retry.Reencode.{Reset, claimed, left}
use katalog_manager.Retry.Queue.{Entry, QueueState, queued, sent, done, failed, is_queued, is_sent}
use katalog_manager.Retry.Queue.Send.{
  World, Limits, Pass, Walk, update_entries, mark_entry, mark_queued, send_entry, note_sent,
  visit_reset, why_of, visit_as, visit, walk, note_not_sent, after_walk, note_outcome, rows_of,
  is_not_sent, first_words, send_queued, budget_of, start_walk, queued_first,
}

-- What a queue's entry may become: one queued is sent, failed or still queued, one sent is done,
-- failed or still sent, and one done or failed stays.
abbrev pub may_become : QueueState → QueueState → Bool
may_become queued done = false
may_become queued _ = true
may_become sent queued = false
may_become sent _ = true
may_become done done = true
may_become done _ = false
may_become failed failed = true
may_become failed _ = false

-- An entry and what a pass made of it: the same title, in its place, in a state it may come to.
pub record Follows (q r : Entry) : Type 0 where
  pub same_id : r.id ≡ q.id
  pub same_item : r.item ≡ q.item
  pub same_seq : r.seq ≡ q.seq
  pub becomes : may_become q.state r.state ≡ true

-- The same, by statements that write the entries passing a test alone.
pub record Writes (test : Entry → Bool) (q r : Entry) : Type 0 where
  pub follows : Follows q r
  pub kept : test q ≡ false → r ≡ q

-- Two lists, entry by entry.
abbrev pub Pairs : (Entry → Entry → Type 0) → List Entry → List Entry → Type 0
Pairs R [] [] = Unit
Pairs R [] (r ∷ rs) = ⊥
Pairs R (q ∷ qs) [] = ⊥
Pairs R (q ∷ qs) (r ∷ rs) = R q r × Pairs R qs rs

pub Follows-refl : (q : Entry) → Follows q q
Follows-refl q = record {
  same_id = refl;
  same_item = refl;
  same_seq = refl;
  becomes = ground arith;
}

pub Writes-refl : (test : Entry → Bool) (q : Entry) → Writes test q q
Writes-refl test q = record { follows = Follows-refl q; kept = λ h. refl }

pub Follows-equal : (q r s : Entry) → Follows q r → s ≡ r → Follows q s
Follows-equal q r s f e = subst (λ t. Follows q t) (sym e) f

pub equal-Follows : (q r s : Entry) → r ≡ q → Follows r s → Follows q s
equal-Follows q r s e f = subst (λ t. Follows t s) e f

-- An entry that is queued still may become whatever a queued one may.
pub Follows-queued :
    (q r s : Entry)
    → is_queued q ≡ true
    → is_queued r ≡ true
    → Follows q r
    → Follows r s
    → Follows q s
Follows-queued q r s h k f g = record {
  same_id = g.same_id ∙ f.same_id;
  same_item = g.same_item ∙ f.same_item;
  same_seq = g.same_seq ∙ f.same_seq;
  becomes = (let b = g.becomes in ground arith);
}

pub Writes-trans :
    (q r s : Entry) → Writes is_queued q r → Writes is_queued r s → Writes is_queued q s
Writes-trans q r s f g = elim (Bool-cases (is_queued q)) [
  | inl e ↦ elim (Bool-cases (is_queued r)) [
    | inl d ↦ record {
      follows = Follows-queued q r s e d f.follows g.follows;
      kept = λ h. absurd (cc);
    }
    | inr d ↦ record { follows = Follows-equal q r s f.follows (g.kept d); kept = λ h. absurd (cc) }
  ]
  | inr e ↦
      (let same = f.kept e in
        record {
          follows = equal-Follows q r s same g.follows;
          kept = λ h. g.kept (ap is_queued same ∙ e) ∙ same;
        })
]

-- Ends, then sends: a title that ended in the pass is not touched again.
pub Follows-pass :
    (q r s : Entry)
    → Writes is_sent q r
    → (is_sent q ≡ true → is_queued r ≡ false)
    → Writes is_queued r s
    → Follows q s
Follows-pass q r s f n g = elim (Bool-cases (is_sent q)) [
  | inl e ↦ Follows-equal q r s f.follows (g.kept (n e))
  | inr e ↦ equal-Follows q r s (f.kept e) g.follows
]

pub Pairs-refl :
    (R : Entry → Entry → Type 0) → ((q : Entry) → R q q) → (qs : List Entry) → Pairs R qs qs
Pairs-refl R h [] = tt
Pairs-refl R h (q ∷ qs) = (h q, Pairs-refl R h qs)

pub Pairs-trans :
    (R S T : Entry → Entry → Type 0)
    → ((q r s : Entry) → R q r → S r s → T q s)
    → (qs rs ss : List Entry) → Pairs R qs rs
    → Pairs S rs ss
    → Pairs T qs ss
Pairs-trans R S T h [] [] [] a b = tt
Pairs-trans R S T h [] [] (s ∷ ss) a b = elim b [ ]
Pairs-trans R S T h [] (r ∷ rs) ss a b = elim a [ ]
Pairs-trans R S T h (q ∷ qs) [] ss a b = elim a [ ]
Pairs-trans R S T h (q ∷ qs) (r ∷ rs) [] a b = elim b [ ]
Pairs-trans R S T h (q ∷ qs) (r ∷ rs) (s ∷ ss) (a, at) (b, bt) =
    (h q r s a b, Pairs-trans R S T h qs rs ss at bt)

pub and-false : (b : Bool) → (b && false) ≡ false
and-false b = ground arith

pub update_entries-Writes :
    (test : Entry → Bool) (set : Entry → Entry)
    → ((q : Entry) → is_queued q ≡ true → Follows q (set q))
    → (qs : List Entry) → Pairs (Writes is_queued) qs (update_entries test set qs)
unfolding update_entries
update_entries-Writes test set h [] = tt
update_entries-Writes test set h (q ∷ qs) = (
  elim (Bool-cases (is_queued q)) [
    | inl e ↦ elim (Bool-cases (test q)) [
      | inl d ↦ rw (d, e) (record { follows = h q e; kept = λ k. absurd (cc) })
      | inr d ↦ rw (d) (Writes-refl is_queued q)
    ]
    | inr e ↦ rw (e, and-false (test q)) (Writes-refl is_queued q)
  ],
  update_entries-Writes test set h qs,
)

pub mark_queued-Writes :
    (now id : ℕ) (fails : Bool) (why : Text) (qs : List Entry)
    → Pairs (Writes is_queued) qs (mark_queued now id fails why qs)
unfolding mark_queued
mark_queued-Writes now id fails why qs =
    update_entries-Writes (λ q. q.id == id) (mark_entry now fails why)
      (λ q h.
        unfold mark_entry in
        record { same_id = refl; same_item = refl; same_seq = refl; becomes = ground arith })
      qs

pub note_sent-Writes :
    (now : ℕ) (ids : List ℕ) (qs : List Entry) → Pairs (Writes is_queued) qs (note_sent now ids qs)
unfolding note_sent
note_sent-Writes now ids qs =
    update_entries-Writes (λ q. any (λ i. i == q.id) ids) (send_entry now)
      (λ q h.
        unfold send_entry in
        record { same_id = refl; same_item = refl; same_seq = refl; becomes = ground arith })
      qs

pub Writes-then :
    (qs rs ss : List Entry)
    → Pairs (Writes is_queued) qs rs
    → Pairs (Writes is_queued) rs ss
    → Pairs (Writes is_queued) qs ss
Writes-then qs rs ss a b =
    Pairs-trans (Writes is_queued) (Writes is_queued) (Writes is_queued) Writes-trans qs rs ss a b

pub note_not_sent-Writes :
    (now : ℕ) (why : Text) (ids : List ℕ) (qs : List Entry)
    → Pairs (Writes is_queued) qs (note_not_sent now why ids qs)
unfolding note_not_sent
note_not_sent-Writes now why [] qs = Pairs-refl (Writes is_queued) (Writes-refl is_queued) qs
note_not_sent-Writes now why (id ∷ ids) qs =
    Writes-then qs _ _ (mark_queued-Writes now id false why qs)
      (note_not_sent-Writes now why ids (mark_queued now id false why qs))

pub visit_reset-Writes :
    (e : World) (now : ℕ) (q : Entry) (rows : List Row) (answer : Reset) (w : Walk)
    → Pairs (Writes is_queued) w.entries (visit_reset e now q rows answer w).entries
unfolding visit_reset
visit_reset-Writes e now q rows (left why) w =
    mark_queued-Writes now q.id false (e.busy_words why) w.entries
visit_reset-Writes e now q rows (claimed none) w =
    Pairs-refl (Writes is_queued) (Writes-refl is_queued) w.entries
visit_reset-Writes e now q rows (claimed (some tr)) w =
    Pairs-refl (Writes is_queued) (Writes-refl is_queued) w.entries

pub visit_as-Writes :
    (e : World) (p : Policy) (now : ℕ) (q : Entry) (w : Walk) (o : Option Text)
    → Pairs (Writes is_queued) w.entries (visit_as e p now q w o).entries
unfolding visit_as
visit_as-Writes e p now q w none = visit_reset-Writes e now q _ _ w
visit_as-Writes e p now q w (some why) = mark_queued-Writes now q.id true why w.entries

pub visit-Writes :
    (e : World) (p : Policy) (now : ℕ) (q : Entry) (w : Walk)
    → Pairs (Writes is_queued) w.entries (visit e p now q w).entries
unfolding visit
visit-Writes e p now q w = visit_as-Writes e p now q w (why_of e q.item)

pub walk-Writes :
    (e : World) (p : Policy) (now budget : ℕ) (qs : List Entry) (w : Walk)
    → Pairs (Writes is_queued) w.entries (walk e p now budget qs w).entries
unfolding walk
walk-Writes e p now budget [] w = Pairs-refl (Writes is_queued) (Writes-refl is_queued) w.entries
walk-Writes e p now budget (q ∷ qs) w = elim (Bool-cases (length w.chosen == budget)) [
  | inl h ↦ rw h (Pairs-refl (Writes is_queued) (Writes-refl is_queued) w.entries)
  | inr h ↦ rw h (
      Writes-then w.entries _ _ (visit-Writes e p now q w)
        (walk-Writes e p now budget qs (visit e p now q w)))
]

pub note_outcome-Writes :
    (now : ℕ) (w : Walk) (p : Pass) (o : List Row × Outcome)
    → Pairs (Writes is_queued) w.entries (note_outcome now w p o).1.0
unfolding note_outcome
note_outcome-Writes now w p (rows, o) =
    let sent_ids = rows_of w.row_of (keep (λ c. not (is_not_sent o.not_sent c)) w.chosen) in
    Writes-then w.entries (note_sent now sent_ids w.entries) _
      (note_sent-Writes now sent_ids w.entries)
      (note_not_sent-Writes now (first_words o.first) (rows_of w.row_of o.not_sent)
        (note_sent now sent_ids w.entries))

pub send_queued-Writes :
    (e : World) (p : Policy) (l : Limits) (now : ℕ) (rows : List Row) (qs : List Entry)
    (pass : Pass)
    → Pairs (Writes is_queued) qs (send_queued e p l now rows qs pass).1.0
unfolding send_queued after_walk
send_queued-Writes e p l now rows qs pass = elim (Bool-cases (budget_of l qs == 0)) [
  | inl h ↦ rw h (Pairs-refl (Writes is_queued) (Writes-refl is_queued) qs)
  | inr h ↦
      let w = walk e p now (budget_of l qs) (queued_first qs) (start_walk rows qs) in
      rw h (
        Writes-then qs w.entries _
          (walk-Writes e p now (budget_of l qs) (queued_first qs) (start_walk rows qs))
          (note_outcome-Writes now w pass
            (dispatch e.publish e.says as_reencode now false 0 w.chosen w.rows)))
]
