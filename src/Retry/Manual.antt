-- ===== src/Retry/Manual.antt =====
-- internal/retry/manual.go: RetryStep, an admin's retry of one step, and of retire, which no event
-- triggers (retryRetire). What a step left alone is told (whyNot) is the status and time that its
-- message names.
pub mod Answers
use Prim.Native.String.{String}
use katalog_manager.Base.{
  ℕ, zero, suc, Bool, true, false, not, ◌&&◌, ◌||◌, Option, none, some, List, [], ◌∷◌, any,
  coalesce, is_some, if◌then◌else◌,
}
use katalog_manager.Base.Text.{Text}
use katalog_manager.Processing.Vocab.{
  Step, Status, pending, done, failed, retire, is_failed, is_scan, same_step, valid_step,
  original_steps,
}
use katalog_manager.Processing.Policy.{Policy}
use katalog_manager.Processing.Table.{Row, find_row, has_key, update_where}
use katalog_manager.Retry.Trigger.{trigger}
use katalog_manager.Retry.Claim.{Catalog, Claimed, claim_step, file_steps, one_of}
use katalog_manager.Retry.Dispatch.{Message, as_retry, Outcome, dispatch}

-- whyNot: the step that there is not, or one of a status, and since when.
pub data WhyNot : Type 0 where
  no_step : WhyNot
  is_status : Status → ℕ → WhyNot

unfoldable pub why_not : ℕ → Option Row → WhyNot
why_not now none = no_step
why_not now (some r) =
    is_status r.status (elim (coalesce r.dispatched r.modified) [ none ↦ now | some t ↦ t ])

-- RetryStep's answer.
pub data Retry : Type 0 where
  unknown_step own_step unavailable original_gone disc_image : Retry
  left_alone : WhyNot → Retry
  not_sent : Option Text → Retry
  retried : Status → Retry

-- What a retry finds: whether the step table and the bus are there, and what the catalog holds.
pub record Room : Type 0 where
  pub step_table : Bool
  pub bus : Bool
  pub sources : Bool
  pub catalog : Catalog

-- resetRetire
unfoldable pub reset_retire : ℕ → Row → Row
reset_retire now r = record r {
  status = pending;
  started = none;
  finished = none;
  error = none;
  next_retry = none;
  dispatched = none;
  failures = 0;
  modified = some now;
}

unfoldable pub is_retire_of : ℕ → Row → Bool
is_retire_of item r = has_key item retire r && is_failed r.status

-- retryRetire; nothing affected is a step left alone.
abbrev pub retire_answer : WhyNot → ℕ → Retry
retire_answer why zero = left_alone why
retire_answer why (suc n) = retried pending

unfoldable pub retry_retire : Room → ℕ → ℕ → List Row → List Row × Retry
unfolding is_retire_of reset_retire why_not
retry_retire g now item rows =
    let (rows', n) = update_where (is_retire_of item) (reset_retire now) rows in
    if not g.step_table
    then (rows, unavailable)
    else (rows', retire_answer (why_not now (find_row item retire rows)) n)

-- Its refusals, before it claims; none to go on.
unfoldable pub refuse_retry : Room → ℕ → Step → Option Retry
refuse_retry g item s =
    if not (is_some (trigger s))
    then some own_step
    else if not (g.step_table && g.bus)
    then some unavailable
    else if one_of s original_steps && g.sources && g.catalog.original_gone item
    then some original_gone
    else if one_of s file_steps && g.catalog.disc_image item
    then some disc_image
    else none

-- What the dispatch of the step claimed answers.
abbrev pub sent_answer : Step → Outcome → Retry
sent_answer s o = elim o.not_sent [
  | [] ↦ retried (if is_scan s then done else pending)
  | c ∷ cs ↦ not_sent o.first
]

-- The step claimed, or why there was none.
unfoldable pub retry_claimed :
    (List Message → List (Option Text))
    → (Option Text → Text)
    → ℕ
    → ℕ
    → Step
    → List Row
    → List Row × List Claimed
    → List Row × Retry
unfolding why_not dispatch
retry_claimed publish says now item s rows (rows', []) =
    (rows', left_alone (why_not now (find_row item s rows')))
retry_claimed publish says now item s rows (rows', c ∷ cs) =
    let (after, o) = dispatch publish says as_retry now false 0 (c ∷ cs) rows' in
    (after, sent_answer s o)

abbrev pub unless : List Row → List Row × Retry → Option Retry → List Row × Retry
unless rows next none = next
unless rows next (some why) = (rows, why)

-- RetryStep, of a step's name
unfoldable pub retry_triggered :
    (List Message → List (Option Text))
    → (Option Text → Text)
    → Room
    → Policy
    → ℕ
    → ℕ
    → Step
    → List Row
    → List Row × Retry
unfolding retry_claimed refuse_retry claim_step
retry_triggered publish says g p now item s rows =
    unless rows
      (retry_claimed publish says now item s rows (claim_step g.catalog p item s now rows))
      (refuse_retry g item s)

unfoldable pub retry_step :
    (List Message → List (Option Text))
    → (Option Text → Text)
    → Room
    → Policy
    → ℕ
    → ℕ
    → String
    → List Row
    → List Row × Retry
unfolding retry_triggered retry_retire valid_step
retry_step publish says g p now item word rows = elim (valid_step word) [
  | none ↦ (rows, unknown_step)
  | some s ↦
      if same_step s retire
      then retry_retire g now item rows
      else retry_triggered publish says g p now item s rows
]
