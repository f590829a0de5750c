-- ===== src/Retry/Failed.antt =====
-- internal/retry/manual.go: RetryFailed, which retries every failed step, of one step when given, a batch
-- at a time, and retryFailedRetire. The clock, what publish answers and the bus are those of each round.
pub mod Rounds
use Prim.Native.String.{String}
use katalog_manager.Base.{
  ℕ, zero, suc, ◌+◌, Bool, true, false, not, ◌&&◌, ◌||◌, Option, none, some, List, [], ◌∷◌, length,
  coalesce, is_some, ltb, if◌then◌else◌,
}
use katalog_manager.Base.Text.{Text}
use katalog_manager.Processing.Vocab.{Step, retire, is_failed, same_step, valid_step}
use katalog_manager.Processing.Table.{Row, update_where}
use katalog_manager.Retry.Claim.{Catalog, batch, claim_failed}
use katalog_manager.Retry.Dispatch.{Message, as_retry, Outcome, dispatch}
use katalog_manager.Retry.Manual.{Room, reset_retire}

-- RetryFailedResult's counts, and the first error of an event.
pub record Total : Type 0 where
  pub retried : ℕ
  pub items : ℕ
  pub unsent : ℕ
  pub first : Option Text

abbrev pub nothing_yet : Total
nothing_yet = record { retried = 0; items = 0; unsent = 0; first = none }

abbrev pub add_round : Outcome → Total → Total
add_round o t = record {
  retried = t.retried + o.sent;
  items = t.items + o.items;
  unsent = t.unsent + length o.not_sent;
  first = coalesce t.first o.first;
}

abbrev pub is_nonempty {ℓ} : {A : Type ℓ} → List A → Bool
is_nonempty [] = false
is_nonempty (x ∷ xs) = true

module _ (publish : ℕ → List Message → List (Option Text)) (says : Option Text → Text)
    (clock : ℕ → ℕ) (c : Catalog) (sources : Bool) (only : Option Step) where
  -- The loop, in its k-th round, with n rounds at most; none is a loop that has not ended by then.
  unfoldable pub retry_rounds : ℕ → ℕ → Total → List Row → Option (List Row × Total)
  unfolding claim_failed dispatch
  retry_rounds zero k t rows = none
  retry_rounds (suc n) k t rows =
      let (rows', claimed) = claim_failed c sources only (clock k) rows in
      let (after, o) = dispatch (publish k) says as_retry (clock k) false 0 claimed rows' in
      let rest = retry_rounds n (suc k) (add_round o t) after in
      if ltb (length claimed) batch || is_nonempty o.not_sent
      then some (after, add_round o t)
      else rest

-- RetryFailed's answer; running is that one runs in the instance.
pub data Answer : Type 0 where
  unknown_step unavailable busy : Answer
  retried_all : Total → Answer

-- retryFailedRetire: the failed retire steps of items that are there.
unfoldable pub is_retire_failed : Catalog → Row → Bool
is_retire_failed c r = same_step r.step retire && is_failed r.status && is_some (c.type_of r.item)

unfoldable pub retry_failed_retire : Room → ℕ → List Row → List Row × Answer
unfolding is_retire_failed reset_retire
retry_failed_retire g now rows =
    let (rows', n) = update_where (is_retire_failed g.catalog) (reset_retire now) rows in
    if not g.step_table
    then (rows, unavailable)
    else (rows', retried_all (record { retried = n; items = n; unsent = 0; first = none }))

abbrev pub with_answer : Option (List Row × Total) → Option (List Row × Answer)
with_answer none = none
with_answer (some (rows, t)) = some (rows, retried_all t)

-- RetryFailed of a step, or of all; none is a loop that has not ended after n rounds.
unfoldable pub retry_failed :
    (ℕ → List Message → List (Option Text))
    → (Option Text → Text)
    → (ℕ → ℕ)
    → Room
    → Bool
    → ℕ
    → Option Step
    → List Row
    → Option (List Row × Answer)
unfolding retry_rounds
retry_failed publish says clock g running n only rows =
    let loop = retry_rounds publish says clock g.catalog g.sources only n 0 nothing_yet rows in
    if not (g.step_table && g.bus)
    then some (rows, unavailable)
    else if running
    then some (rows, busy)
    else with_answer loop

-- RetryFailed, of a step's name: "" is all, and retire waits for its job.
unfoldable pub retry_failed_named :
    (ℕ → List Message → List (Option Text))
    → (Option Text → Text)
    → (ℕ → ℕ)
    → Room
    → Bool
    → ℕ
    → String
    → List Row
    → Option (List Row × Answer)
unfolding retry_failed retry_failed_retire valid_step
retry_failed_named publish says clock g running n String.[] rows =
    retry_failed publish says clock g running n none rows
retry_failed_named publish says clock g running n (String.◌∷◌ h word) rows =
    elim (valid_step (String.◌∷◌ h word)) [
      | none ↦ some (rows, unknown_step)
      | some s ↦
          if same_step s retire
          then some (retry_failed_retire g (clock 0) rows)
          else retry_failed publish says clock g running n (some s) rows
    ]
