-- ===== src/Processing/Table.antt =====
-- internal/processing/steps.go: the rows of the step table, and the statements Upsert and
-- ResetForItems run on it. An id is compared only, so it is a number; a nullable column is an
-- Option; a time is a number, and now() is the argument now.
pub mod Keys
use katalog_manager.Base.{
  ℕ, ◌+◌, Bool, true, false, not, ◌&&◌, ◌||◌, Option, none, some, List, [], ◌∷◌, any, coalesce,
  is_some, ◌==◌, if◌then◌else◌,
}
use mathlib.Core.Option
use katalog_manager.Base.Text.{Text}
use katalog_manager.Processing.Policy.{sql_at}
use katalog_manager.Processing.Vocab.{
  Step, Status, pending, done, failed, same_step, is_failed, is_in_progress, is_pending, ends_run,
  ends_failures,
}

-- A row of com_nalet_katalog_itemprocessingsteps, migration 033's columns last.
pub record Row : Type 0 where
  pub id : ℕ
  pub item : ℕ
  pub step : Step
  pub status : Status
  pub created : Option ℕ
  pub modified : Option ℕ
  pub started : Option ℕ
  pub finished : Option ℕ
  pub attempts : Option ℕ
  pub error : Option Text
  pub details : Option Text
  pub failures : ℕ
  pub last_error : Option Text
  pub next_retry : Option ℕ
  pub dispatched : Option ℕ

-- What a report says of a step.
pub record Report : Type 0 where
  pub status : Status
  pub error : Option Text
  pub details : Option Text

unfoldable pub same_key : ℕ → Step → ℕ → Step → Bool
same_key item step i s = i == item && same_step s step

unfoldable pub has_key : ℕ → Step → Row → Bool
unfolding same_key
has_key item step r = same_key item step r.item r.step

-- now() + make_interval(secs => delays[n])
abbrev pub retry_at : ℕ → List ℕ → ℕ → Option ℕ
retry_at now delays n = Option.map (λ d. now + d) (sql_at delays n)

-- COALESCE(n, 0)
abbrev coalesce_or : Option ℕ → ℕ
coalesce_or none = 0
coalesce_or (some n) = n

-- insertAttempts
abbrev pub insert_attempts : Status → ℕ
insert_attempts s = if is_pending s then 0 else 1

-- runAttempts
abbrev pub run_attempts : Status → Row → Option ℕ
run_attempts s r =
    if is_in_progress s && not (is_in_progress r.status)
    then some (coalesce_or r.attempts + 1)
    else r.attempts

-- The row that upsertSQL inserts.
unfoldable pub insert_row : ℕ → ℕ → ℕ → Step → Report → List ℕ → Row
insert_row now id item step rep delays = record {
  id = id;
  item = item;
  step = step;
  status = rep.status;
  created = some now;
  modified = some now;
  started = if is_in_progress rep.status then some now else none;
  finished = if ends_run rep.status then some now else none;
  attempts = some (insert_attempts rep.status);
  error = rep.error;
  details = rep.details;
  failures = if is_failed rep.status then 1 else 0;
  last_error = if is_failed rep.status then rep.error else none;
  next_retry = if is_failed rep.status then retry_at now delays 1 else none;
  dispatched = none;
}

-- What legacyUpsertSQL sets on a conflict.
unfoldable pub update_row_legacy : ℕ → Report → Row → Row
update_row_legacy now rep r = record r {
  status = rep.status;
  modified = some now;
  started = if is_in_progress rep.status && not (is_some r.started) then some now else r.started;
  finished = if ends_run rep.status then some now else r.finished;
  attempts = run_attempts rep.status r;
  error = rep.error;
  details = rep.details;
}

-- What upsertSQL sets on a conflict, every expression reading the row as it was.
unfoldable pub update_row : ℕ → Report → List ℕ → Row → Row
unfolding update_row_legacy
update_row now rep delays r = record (update_row_legacy now rep r) {
  failures =
      if is_failed rep.status && not (is_failed r.status)
      then r.failures + 1
      else if ends_failures rep.status
      then 0
      else r.failures;
  last_error =
      if not (is_failed rep.status)
      then r.last_error
      else if is_failed r.status
      then coalesce rep.error r.last_error
      else rep.error;
  next_retry =
      if not (is_failed rep.status)
      then none
      else if is_failed r.status
      then r.next_retry
      else retry_at now delays (r.failures + 1);
  dispatched = none;
}

-- The row of a key after its upsert: the new one, or the one there was, updated.
unfoldable pub upserted : Row → (Row → Row) → Option Row → Row
upserted new update none = new
upserted new update (some r) = update r

-- INSERT ... ON CONFLICT (item_id, step) DO UPDATE
unfoldable pub upsert_rows : ℕ → Step → Row → (Row → Row) → List Row → List Row
upsert_rows item step new update [] = new ∷ []
upsert_rows item step new update (r ∷ rs) =
    if has_key item step r then update r ∷ rs else r ∷ upsert_rows item step new update rs

-- The row of an item's step.
unfoldable pub find_row : ℕ → Step → List Row → Option Row
find_row item step [] = none
find_row item step (r ∷ rs) = if has_key item step r then some r else find_row item step rs

-- UPDATE ... SET set WHERE test: the table after it, and RowsAffected.
unfoldable pub update_where : (Row → Bool) → (Row → Row) → List Row → List Row × ℕ
update_where test set [] = ([], 0)
update_where test set (r ∷ rs) =
    let (rest, n) = update_where test set rs in
    if test r then (set r ∷ rest, n + 1) else (r ∷ rest, n)

-- What ResetForItems sets of a step.
unfoldable pub reset_row_legacy : ℕ → Row → Row
reset_row_legacy now r = record r {
  status = pending;
  started = none;
  finished = none;
  error = none;
  modified = some now;
}

unfoldable pub reset_row : ℕ → Row → Row
unfolding reset_row_legacy
reset_row now r = record (reset_row_legacy now r) {
  failures = 0;
  next_retry = none;
  dispatched = none;
}
