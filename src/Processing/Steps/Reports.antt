-- ===== src/Processing/Steps/Reports.antt =====
-- What a run of reports of one step leaves in its row.
use katalog_manager.Base.{
  ℕ, ◌+◌, ◌≡◌, ◌≢◌, refl, Bool, true, false, not, ◌&&◌, none, some, List, [], ◌∷◌, arith, is_some,
  coalesce, if◌then◌else◌,
}
use katalog_manager.Processing.Vocab.{
  Step, Status, failed, is_failed, is_in_progress, is_pending, ends_failures,
}
use katalog_manager.Processing.Policy.{Policy, delays, delay, retries}
use katalog_manager.Processing.Policy.Schedule.{sql_at-delays}
use katalog_manager.Processing.Table.{Row, Report, insert_row, update_row, retry_at}

-- A report and when it came.
abbrev pub Timed : Type 0
Timed = ℕ × Report

-- The row after the reports, and after a step's first report and those after it.
unfoldable pub row_from : Policy → Row → List Timed → Row
row_from p r [] = r
row_from p r ((now, rep) ∷ rest) = row_from p (update_row now rep (delays p) r) rest

unfoldable pub row_of : Policy → ℕ → ℕ → Step → Timed → List Timed → Row
unfolding row_from
row_of p id item step (now, rep) rest = row_from p (insert_row now id item step rep (delays p)) rest

-- How often the reports after one of status was turn the step to a status that passes the test.
abbrev pub turns : (Status → Bool) → Status → List Timed → ℕ
turns test was [] = 0
turns test was ((now, rep) ∷ rest) =
    (if test rep.status && not (test was) then 1 else 0) + turns test rep.status rest

-- No report among them ends the failures in a row.
abbrev pub NoEnd : List Timed → Type 0
NoEnd [] = Unit
NoEnd ((now, rep) ∷ rest) = (ends_failures rep.status ≡ false) × NoEnd rest

update_row-attempts :
    (now : ℕ) (rep : Report) (ds : List ℕ) (r : Row) (n : ℕ)
    → r.attempts ≡ some n
    → (update_row now rep ds r).attempts
      ≡ some (n + (if is_in_progress rep.status && not (is_in_progress r.status) then 1 else 0))
unfolding update_row
update_row-attempts now rep ds r n h = ground arith

update_row-status :
    (now : ℕ) (rep : Report) (ds : List ℕ) (r : Row) → (update_row now rep ds r).status ≡ rep.status
unfolding update_row
update_row-status now rep ds r = refl

row_from-attempts :
    (p : Policy) (r : Row) (n : ℕ) (reps : List Timed)
    → r.attempts ≡ some n
    → (row_from p r reps).attempts ≡ some (n + turns is_in_progress r.status reps)
unfolding row_from
row_from-attempts p r n [] h = ground arith
row_from-attempts p r n ((now, rep) ∷ reps) h =
    let next =
      row_from-attempts p (update_row now rep (delays p) r) _ reps
        (update_row-attempts now rep (delays p) r n h) in
    ground (arith, update_row-status now rep (delays p) r)

-- attempts counts the runs: the first report is one but for a step that is only enqueued, and each
-- report that turns the step in progress from another status starts one. A heartbeat, a run's end, a
-- failure reported again and a promotion count nothing.
pub attempts-runs :
    (p : Policy) (id item : ℕ) (step : Step) (now : ℕ) (rep : Report) (rest : List Timed)
    → (row_of p id item step (now, rep) rest).attempts
      ≡ some ((if is_pending rep.status then 0 else 1) + turns is_in_progress rep.status rest)
unfolding row_of insert_row
attempts-runs p id item step now rep rest = row_from-attempts p _ _ rest refl

update_row-failures :
    (now : ℕ) (rep : Report) (ds : List ℕ) (r : Row)
    → ends_failures rep.status ≡ false
    → (update_row now rep ds r).failures
      ≡ r.failures + (if is_failed rep.status && not (is_failed r.status) then 1 else 0)
unfolding update_row
update_row-failures now rep ds r h = ground arith

row_from-failures :
    (p : Policy) (r : Row) (reps : List Timed)
    → NoEnd reps
    → (row_from p r reps).failures ≡ r.failures + turns is_failed r.status reps
unfolding row_from
row_from-failures p r [] h = omega arith
row_from-failures p r ((now, rep) ∷ reps) h = ground (
  arith,
  row_from-failures p (update_row now rep (delays p) r) reps h.1,
  update_row-failures now rep (delays p) r,
  update_row-status now rep (delays p) r,
)

update_row-ends :
    (now : ℕ) (rep : Report) (ds : List ℕ) (r : Row)
    → ends_failures rep.status ≡ true
    → (update_row now rep ds r).failures ≡ 0
unfolding update_row
update_row-ends now rep ds r h = ground arith

-- failures counts the failures in a row: of the reports after the last one that was done, skipped or
-- not applicable, those that turn the step failed from another status; a failure reported again
-- counts nothing.
pub failures-turns :
    (p : Policy) (r : Row) (now : ℕ) (rep : Report) (rest : List Timed)
    → ends_failures rep.status ≡ true
    → NoEnd rest
    → (row_from p r ((now, rep) ∷ rest)).failures ≡ turns is_failed rep.status rest
unfolding row_from
failures-turns p r now rep rest e h = ground (
  arith,
  row_from-failures p (update_row now rep (delays p) r) rest h,
  update_row-ends now rep (delays p) r e,
  update_row-status now rep (delays p) r,
)

-- A retry is scheduled exactly while the step is failed and the policy retries its failures.
abbrev pub IsScheduled : Policy → Row → Type 0
IsScheduled p r = is_some r.next_retry ≡ (is_failed r.status && retries p r.failures)

pub retry_at-delays :
    (p : Policy) (now n : ℕ)
    → retry_at now (delays p) n ≡ (if retries p n then some (now + delay p n) else none)
retry_at-delays p now n = rw (sql_at-delays p n) (ground arith)

update_row-IsScheduled :
    (p : Policy) (now : ℕ) (rep : Report) (r : Row)
    → IsScheduled p r
    → IsScheduled p (update_row now rep (delays p) r)
unfolding update_row
update_row-IsScheduled p now rep r h = ground (arith, retry_at-delays p now (r.failures + 1))

insert_row-IsScheduled :
    (p : Policy) (now id item : ℕ) (step : Step) (rep : Report)
    → IsScheduled p (insert_row now id item step rep (delays p))
unfolding insert_row
insert_row-IsScheduled p now id item step rep = ground (arith, retry_at-delays p now 1)

row_from-IsScheduled :
    (p : Policy) (r : Row) (reps : List Timed) → IsScheduled p r → IsScheduled p (row_from p r reps)
unfolding row_from
row_from-IsScheduled p r [] h = h
row_from-IsScheduled p r ((now, rep) ∷ reps) h =
    row_from-IsScheduled p (update_row now rep (delays p) r) reps
      (update_row-IsScheduled p now rep r h)

-- After any reports of a step, a retry is scheduled exactly when the step is failed and the policy
-- retries that many failures in a row.
pub reports-IsScheduled :
    (p : Policy) (id item : ℕ) (step : Step) (first : Timed) (rest : List Timed)
    → IsScheduled p (row_of p id item step first rest)
unfolding row_of
reports-IsScheduled p id item step (now, rep) rest =
    row_from-IsScheduled p _ rest (insert_row-IsScheduled p now id item step rep)

-- A report that turns a step failed counts a failure, keeps its error, and schedules the retry for
-- the policy's wait after that many failures from now, when the policy retries it, and none otherwise.
pub update_row-failed :
    (p : Policy) (now : ℕ) (rep : Report) (r : Row)
    → rep.status ≡ failed
    → r.status ≢ failed
    → let r' = update_row now rep (delays p) r in
      (r'.failures ≡ r.failures + 1)
      × (r'.next_retry
          ≡ (if retries p (r.failures + 1) then some (now + delay p (r.failures + 1)) else none))
      × (r'.last_error ≡ rep.error)
unfolding update_row
update_row-failed p now rep r h n = ground (arith, retry_at-delays p now (r.failures + 1))

-- A failure reported again, of a step that is failed already, keeps its count, its schedule and,
-- unless the report gives a new one, its last error; whatever is reported answers a trigger sent.
pub update_row-failed_again :
    (now : ℕ) (rep : Report) (ds : List ℕ) (r : Row)
    → rep.status ≡ failed
    → r.status ≡ failed
    → let r' = update_row now rep ds r in
      (r'.failures ≡ r.failures)
      × (r'.next_retry ≡ r.next_retry)
      × (r'.last_error ≡ coalesce rep.error r.last_error)
      × (r'.attempts ≡ r.attempts)
      × (r'.dispatched ≡ none)
unfolding update_row
update_row-failed_again now rep ds r h n = ground arith
