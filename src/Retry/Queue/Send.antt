-- ===== src/Retry/Queue/Send.antt =====
-- internal/retry/queue.go: sendQueued, which resets the titles queued first, sends their events and
-- marks the ones sent. The database's own errors are not modelled: each statement succeeds.
use katalog_manager.Base.{
  ℕ, ◌+◌, ◌-◌, Bool, true, false, not, ◌&&◌, Option, none, some, List, [], ◌∷◌, ◌++◌, any, count,
  keep, length, take, min, ltb, ◌==◌, if◌then◌else◌,
}
use katalog_manager.Base.Text.{Text, codes}
use katalog_manager.Processing.Vocab.{transcode}
use katalog_manager.Processing.Vocab
use katalog_manager.Processing.Policy.{Policy}
use katalog_manager.Processing.Table.{Row}
use katalog_manager.Retry.Claim.{Claimed, batch}
use katalog_manager.Retry.Dispatch.{Message, as_reencode, Outcome, dispatch}
use katalog_manager.Retry.Reencode.{Reset, claimed, left, Busy, reset}
use mathlib.Core.Option
use katalog_manager.Retry.Queue.{
  Facts, unqueueable_of, Entry, queued, sent, failed, is_queued, is_sent, left_500,
}

-- library.reencode.rate and library.reencode.inflight, as ReadSettings has read them.
pub record Limits : Type 0 where
  pub rate : ℕ
  pub inflight : ℕ

-- What a pass reads of the world: each title's reason not to encode it (unencodable, blocked) and
-- type, the ids of the rows that a reset may add, the words of a busy title, the publisher and the
-- words of a step not sent.
pub record World : Type 0 where
  pub facts : Facts
  pub type_of : ℕ → Option ℕ
  pub new_ids : ℕ → ℕ × ℕ
  pub busy_words : Busy → Text
  pub publish : List Message → List (Option Text)
  pub says : Option Text → Text

-- why[item].why
unfoldable pub why_of : World → ℕ → Option Text
unfolding unqueueable_of
why_of e item = Option.map (λ u. u.1) (unqueueable_of e.facts item)

-- QueuePass's counts
pub record Pass : Type 0 where
  pub done : ℕ
  pub failed : ℕ
  pub sent : ℕ
  pub busy : ℕ
  pub not_sent : ℕ
  pub refused : ℕ
  pub idle : Option Text
  pub waiting : ℕ

-- UPDATE of the queue WHERE a test, of queued rows.
unfoldable pub update_entries : (Entry → Bool) → (Entry → Entry) → List Entry → List Entry
update_entries test set [] = []
update_entries test set (q ∷ qs) =
    (if test q && is_queued q then set q else q) ∷ update_entries test set qs

-- markQueued, to failed or, still, to queued
unfoldable pub mark_entry : ℕ → Bool → Text → Entry → Entry
mark_entry now fails why q = record q {
  state = if fails then failed else queued;
  reason = some (left_500 why);
  done_at = if fails then some now else none;
}

unfoldable pub mark_queued : ℕ → ℕ → Bool → Text → List Entry → List Entry
unfolding update_entries mark_entry
mark_queued now id fails why qs = update_entries (λ q. q.id == id) (mark_entry now fails why) qs

-- The UPDATE that notes the titles sent.
unfoldable pub send_entry : ℕ → Entry → Entry
send_entry now q = record q { state = sent; sent_at = some now; reason = none }

unfoldable pub note_sent : ℕ → List ℕ → List Entry → List Entry
unfolding update_entries send_entry
note_sent now ids qs = update_entries (λ q. any (λ i. i == q.id) ids) (send_entry now) qs

-- ORDER BY seq LIMIT batch, of the queued ones
unfoldable pub insert_entry : Entry → List Entry → List Entry
insert_entry q [] = q ∷ []
insert_entry q (r ∷ rs) = if ltb r.seq q.seq then r ∷ insert_entry q rs else q ∷ r ∷ rs

unfoldable pub by_seq : List Entry → List Entry
unfolding insert_entry
by_seq [] = []
by_seq (q ∷ qs) = insert_entry q (by_seq qs)

unfoldable pub queued_first : List Entry → List Entry
unfolding by_seq
queued_first qs = take batch (by_seq (keep is_queued qs))

-- The walk's state: the two tables, the titles reset, with the queue row of each (rowOf), and counts.
pub record Walk : Type 0 where
  pub rows : List Row
  pub entries : List Entry
  pub chosen : List Claimed
  pub row_of : List (ℕ × ℕ)
  pub busy : ℕ
  pub refused : ℕ

-- rowOf[item]
unfoldable pub look_up : ℕ → List (ℕ × ℕ) → Option ℕ
look_up item [] = none
look_up item ((i, id) ∷ rest) = if i == item then some id else look_up item rest

-- A title that reset answered.
unfoldable pub visit_reset : World → ℕ → Entry → List Row → Reset → Walk → Walk
unfolding mark_queued
visit_reset e now q rows (left why) w = record w {
  rows = rows;
  entries = mark_queued now q.id false (e.busy_words why) w.entries;
  busy = w.busy + 1;
}
visit_reset e now q rows (claimed none) w = record w { rows = rows }
visit_reset e now q rows (claimed (some tr)) w = record w {
  rows = rows;
  row_of = (q.item, q.id) ∷ w.row_of;
  chosen =
      w.chosen
      ++ (record {
        id = tr;
        item = q.item;
        step = transcode;
        item_type = e.type_of q.item;
        was = Vocab.pending;
      }
          ∷ []);
}

-- A round of the loop, past its test of the budget.
unfoldable pub visit_as : World → Policy → ℕ → Entry → Walk → Option Text → Walk
unfolding visit_reset
visit_as e p now q w (some why) = record w {
  entries = mark_queued now q.id true why w.entries;
  refused = w.refused + 1;
}
visit_as e p now q w none =
    let (rows, answer) = reset p now (e.new_ids q.item).0 (e.new_ids q.item).1 q.item w.rows in
    visit_reset e now q rows answer w

unfoldable pub visit : World → Policy → ℕ → Entry → Walk → Walk
unfolding visit_as why_of
visit e p now q w = visit_as e p now q w (why_of e q.item)

unfoldable pub walk : World → Policy → ℕ → ℕ → List Entry → Walk → Walk
unfolding visit
walk e p now budget [] w = w
walk e p now budget (q ∷ qs) w =
    let rest = walk e p now budget qs (visit e p now q w) in
    if length w.chosen == budget then w else rest

-- The queue rows of the titles reset whose event was sent, and of the others.
abbrev pub is_not_sent : List Claimed → Claimed → Bool
is_not_sent back c = any (λ b. b.item == c.item) back

abbrev pub add_id : Option ℕ → List ℕ → List ℕ
add_id none ids = ids
add_id (some id) ids = id ∷ ids

unfoldable pub rows_of : List (ℕ × ℕ) → List Claimed → List ℕ
unfolding look_up
rows_of row_of [] = []
rows_of row_of (c ∷ cs) = add_id (look_up c.item row_of) (rows_of row_of cs)

unfoldable pub note_not_sent : ℕ → Text → List ℕ → List Entry → List Entry
unfolding mark_queued
note_not_sent now why [] qs = qs
note_not_sent now why (id ∷ ids) qs = note_not_sent now why ids (mark_queued now id false why qs)

abbrev pub first_words : Option Text → Text
first_words none = []
first_words (some e) = codes "the re-encode could not be sent: " ++ e

-- What follows the walk: the events, and what the queue notes of them, given what dispatch made.
unfoldable pub note_outcome : ℕ → Walk → Pass → List Row × Outcome → List Row × (List Entry × Pass)
unfolding rows_of note_sent note_not_sent
note_outcome now w p (rows, o) =
    let sent_ids = rows_of w.row_of (keep (λ c. not (is_not_sent o.not_sent c)) w.chosen) in
    let back_ids = rows_of w.row_of o.not_sent in
    (
      rows,
      (
        note_not_sent now (first_words o.first) back_ids (note_sent now sent_ids w.entries),
        record p {
          sent = length sent_ids;
          busy = p.busy + w.busy;
          refused = p.refused + w.refused;
          not_sent = p.not_sent + length back_ids;
        },
      ),
    )

unfoldable pub after_walk : World → ℕ → Walk → Pass → List Row × (List Entry × Pass)
unfolding note_outcome dispatch
after_walk e now w p =
    note_outcome now w p (dispatch e.publish e.says as_reencode now false 0 w.chosen w.rows)

-- budget: no more than rate in a pass, and than inflight leaves room for; 0 for one that is negative.
abbrev pub budget_of : Limits → List Entry → ℕ
budget_of l qs = min l.rate (l.inflight - count is_sent qs)

abbrev pub start_walk : List Row → List Entry → Walk
start_walk rows qs = record {
  rows = rows;
  entries = qs;
  chosen = [];
  row_of = [];
  busy = 0;
  refused = 0;
}

-- sendQueued
unfoldable pub send_queued :
    World → Policy → Limits → ℕ → List Row → List Entry → Pass → List Row × (List Entry × Pass)
unfolding walk after_walk queued_first
send_queued e p l now rows qs pass =
    let budget = budget_of l qs in
    if budget == 0
    then (rows, (qs, pass))
    else after_walk e now (walk e p now budget (queued_first qs) (start_walk rows qs)) pass
