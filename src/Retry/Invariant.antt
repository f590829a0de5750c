-- ===== src/Retry/Invariant.antt =====
-- What the statements of History keep of each row of the step table.
use katalog_manager.Base.{ℕ, ◌+◌, ◌<◌, ◌≡◌, ◌⊎◌, Bool, true, false, Option, arith, is_some}
use katalog_manager.Base.Text.{Text}
use katalog_manager.Processing.Vocab.{Step, is_failed}
use katalog_manager.Processing.Policy.{Policy, delays}
use katalog_manager.Processing.Policy.Schedule.{retries-bounds}
use katalog_manager.Processing.Table.{Row, Report, insert_row, update_row, reset_row}
use katalog_manager.Processing.Steps.Reports.{retry_at-delays}
use katalog_manager.Retry.Claim.{claim_set, reap_set}
use katalog_manager.Retry.Dispatch.{put_back_set}
use katalog_manager.Retry.Sweep.{taken_set}
use katalog_manager.Retry.Reencode.{reencode_set, added_row}

-- A retry is scheduled of a failed step alone, and only while its failures in a row are below
-- MaxAttempts; a trigger sent again waits for a step that is not failed and has runs left, or starts
-- afresh.
pub record InPolicy (p : Policy) (r : Row) : Type 0 where
  pub scheduled_failed : is_some r.next_retry ≡ true → is_failed r.status ≡ true
  pub scheduled_below :
      is_some r.next_retry ≡ true → (r.failures < p.max_attempts) ⊎ (r.failures ≡ 0)
  pub sent_waits : is_some r.dispatched ≡ true → is_failed r.status ≡ false
  pub sent_below : is_some r.dispatched ≡ true → (r.failures < p.max_attempts) ⊎ (r.failures ≡ 0)

module _ (p : Policy) (now : ℕ) where
  pub insert_row-InPolicy :
      (id item : ℕ) (s : Step) (rep : Report) → InPolicy p (insert_row now id item s rep (delays p))
  unfolding insert_row
  insert_row-InPolicy id item s rep = ground (arith, retry_at-delays p now 1, retries-bounds p 1)

  pub update_row-InPolicy :
      (rep : Report) (r : Row) → InPolicy p r → InPolicy p (update_row now rep (delays p) r)
  unfolding update_row
  update_row-InPolicy rep r v =
      ground (arith, retry_at-delays p now (r.failures + 1), retries-bounds p (r.failures + 1))

  pub reset_row-InPolicy : (r : Row) → InPolicy p (reset_row now r)
  unfolding reset_row
  reset_row-InPolicy r = ground arith

  pub claim_set-InPolicy :
      (manual : Bool) (r : Row)
      → (manual ≡ true) ⊎ (is_some r.next_retry ≡ true)
      → InPolicy p r
      → InPolicy p (claim_set manual now r)
  unfolding claim_set
  claim_set-InPolicy manual r m v = ground arith

  pub reap_set-InPolicy : (says : Row → Text) (r : Row) → InPolicy p (reap_set says p now r)
  unfolding reap_set
  reap_set-InPolicy says r =
      ground (arith, retry_at-delays p now (r.failures + 1), retries-bounds p (r.failures + 1))

  pub put_back_set-InPolicy :
      (says : Text) (again : ℕ) (r : Row)
      → is_some r.dispatched ≡ true
      → InPolicy p r
      → InPolicy p (put_back_set now says again r)
  unfolding put_back_set
  put_back_set-InPolicy says again r d v = ground arith

  pub taken_set-InPolicy :
      (version_of : ℕ → Option Text) (r : Row) → InPolicy p (taken_set version_of now r)
  unfolding taken_set
  taken_set-InPolicy version_of r = ground arith

  pub reencode_set-InPolicy : (r : Row) → InPolicy p (reencode_set now r)
  unfolding reencode_set
  reencode_set-InPolicy r = ground arith

  pub added_row-InPolicy : (id item : ℕ) (s : Step) → InPolicy p (added_row now id item s)
  unfolding added_row
  added_row-InPolicy id item s = ground arith
