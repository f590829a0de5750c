-- ===== src/Tests/Processing.antt =====
-- Cases of the step table's theorems.
use katalog_manager.Base.{◌≡◌, refl, none, some, [], ◌∷◌}
use katalog_manager.Base.Backoff.{doubled, double_while}
use katalog_manager.Processing.Vocab.{
  pending, in_progress, done, failed, tidb, valid_step, valid_status,
}
use katalog_manager.Processing.Policy.{delay, delays, retries, sql_at}
use katalog_manager.Processing.Policy.Schedule.{sql_at-delays}
use katalog_manager.Processing.Errors.{clean_error?}
use katalog_manager.Processing.Table.{insert_row, upsert_rows}
use katalog_manager.Processing.Steps.{ok, upsert, upsert_with}
use katalog_manager.Processing.Steps.Reports.{
  row_of, row_from, attempts-runs, failures-turns, reports-IsScheduled, IsScheduled,
}
use katalog_manager.Tests.Samples.{three_runs, report_of, failed_once, steps_of, same_text}

sql_at-delays_example : sql_at (delays three_runs) 2 ≡ some 15
unfolding retries delay doubled double_while
sql_at-delays_example = sql_at-delays three_runs 2

-- Enqueued, run, failed, run again: two runs.
attempts-runs_example :
    (row_of three_runs 1 7 tidb
      (1, report_of pending)
      ((2, report_of in_progress)
        ∷ (3, report_of failed)
        ∷ (4, report_of in_progress)
        ∷ [])).attempts
    ≡ some 2
attempts-runs_example =
    attempts-runs three_runs 1 7 tidb 1 (report_of pending)
      ((2, report_of in_progress) ∷ (3, report_of failed) ∷ (4, report_of in_progress) ∷ [])

failures-turns_example :
    (row_from three_runs failed_once
      ((2, report_of done) ∷ (3, report_of failed) ∷ (4, report_of failed) ∷ [])).failures
    ≡ 1
failures-turns_example =
    failures-turns three_runs failed_once 2 (report_of done)
      ((3, report_of failed) ∷ (4, report_of failed) ∷ []) refl (refl, (refl, tt))

reports-IsScheduled_example :
    IsScheduled three_runs
      (row_of three_runs 1 7 tidb (1, report_of failed) ((2, report_of failed) ∷ []))
reports-IsScheduled_example =
    reports-IsScheduled three_runs 1 7 tidb (1, report_of failed) ((2, report_of failed) ∷ [])

after_report :
    upsert same_text 5 9 7 "tidb" "failed" none none (steps_of [])
    ≡ ok (steps_of (insert_row 5 9 7 tidb (report_of failed) (delays three_runs) ∷ []))
unfolding upsert upsert_with upsert_rows valid_step valid_status clean_error?
after_report = refl
