-- ===== src/Tests/Retry.antt =====
-- Cases of the retries' theorems.
use katalog_manager.Base.{
  none, ◌+◌, ◌≡◌, ◌⊎◌, refl, Bool, count, true, false, some, List, [], ◌∷◌, arith, All, any, length,
  ◌==◌,
}
use katalog_manager.Base.Text.{codes}
use katalog_manager.Processing.Vocab.{failed, tidb, transcode, same_step}
use katalog_manager.Processing.Policy.{timeout}
use katalog_manager.Processing.Table.{Row, find_row, has_key, same_key, update_where, upsert_rows}
use katalog_manager.Processing.Steps.{upsert_with}
use katalog_manager.Retry.Claim.{claim_due}
use katalog_manager.Retry.Claim.Once.{claim_due_once, has_id}
use katalog_manager.Retry.Claim.Chosen.{HasUniqueIds}
use katalog_manager.Retry.Claim.{Claimed, is_due}
use katalog_manager.Retry.Sweep.{Swept, sweep}
use katalog_manager.Retry.Sweep.Ends.{sweep-ends}
use katalog_manager.Retry.Dispatch.{as_retry, dispatch, group_from}
use katalog_manager.Retry.Dispatch.Addresses.{IsAddressed, AreDistinct}
use katalog_manager.Retry.Dispatch.Conserve.{delivered, dispatch_lem}
use katalog_manager.Retry.Reencode.{
  reset, reencode_set, added_row, claimed, left, waiting, busy, busy_step, chain_step, transcoded,
  finish_reset,
}
use katalog_manager.Retry.Reencode.Idle.{reset_once}
use katalog_manager.Retry.Invariant.{InPolicy}
use katalog_manager.Retry.History.{Move, Reach, Reach-InPolicy}
use katalog_manager.Tests.Samples.{
  three_runs, report_of, failed_once, chain_rows, catalog, takes_all, takes_all-length,
  claimed_tidb,
}

-- A step reports a failure, and the sweep claims it.
abbrev after_failure : List Row
after_failure = upsert_with false 5 1 7 tidb (report_of failed) three_runs []

failure_Reach : Reach three_runs after_failure
failure_Reach =
    Reach.next Reach.start (Move.report 5 1 7 tidb (report_of failed) (unfold has_id in refl) refl)

Reach-InPolicy_example :
    All (InPolicy three_runs) (claim_due catalog true 20 after_failure).0
    × HasUniqueIds (claim_due catalog true 20 after_failure).0
Reach-InPolicy_example =
    Reach-InPolicy three_runs (claim_due catalog true 20 after_failure).0
      (Reach.next failure_Reach (Move.sweep 20 catalog true refl))

claim_due_once_example :
    let (rows', first) = claim_due catalog true 20 (failed_once ∷ []) in
    let (rows'', o) = dispatch takes_all (λ e. codes "not sent") as_retry 20 true 10 first rows' in
    All
      (λ d. (any (λ f. f.id == d.id) first ≡ false) ⊎ (any (λ f. f.id == d.id) o.not_sent ≡ true))
      (claim_due catalog true 30 rows'').1
claim_due_once_example =
    claim_due_once catalog true 20 30 (failed_once ∷ []) takes_all (λ e. codes "not sent") true 10

-- A claimed step counted by its id.
abbrev is_first : Claimed → Bool
is_first c = c.id == 1

dispatch_lem_example :
    let o =
      (dispatch takes_all
        (λ e. codes "not sent")
        as_retry
        20
        true
        10
        (claimed_tidb ∷ [])
        (failed_once ∷ [])).1 in
    let msgs = group_from as_retry [] (claimed_tidb ∷ []) in
    let sent = delivered msgs (takes_all msgs) in
    (count is_first sent + count is_first o.not_sent ≡ count is_first (claimed_tidb ∷ []))
    × (o.sent ≡ length sent)
    × All IsAddressed msgs
    × AreDistinct msgs
dispatch_lem_example =
    dispatch_lem takes_all (λ e. codes "not sent") as_retry 20 true 10 (claimed_tidb ∷ [])
      (failed_once ∷ []) is_first takes_all-length

chain_claimed : (reset three_runs 50 3 4 7 chain_rows).1 ≡ claimed (some 1)
unfolding reset finish_reset busy busy_step chain_step transcoded reencode_set added_row find_row
    has_key same_key same_step update_where upsert_rows timeout
chain_claimed = refl

reset_once_example :
    let rows' = (reset three_runs 50 3 4 7 chain_rows).0 in
    reset three_runs 150 5 6 7 rows' ≡ (rows', left (waiting transcode (some 50)))
reset_once_example =
    reset_once three_runs 50 150 3 4 7 5 6 chain_rows chain_claimed (unfold timeout in omega arith)

unique_failed : HasUniqueIds (failed_once ∷ [])
unfolding has_id
unique_failed = (refl, tt)

-- The failed step is due at 20; its round claims it and sends its event.
sweep-ends_example :
    (after : List Row) × (s : Swept) × (sweep
        (λ k. takes_all)
        (λ e. codes "not sent")
        (λ k. 20 + k)
        catalog
        true
        three_runs
        false
        (λ r. codes "timed out")
        true
        (λ i. none)
        20
        2
        (failed_once ∷ [])
      ≡ some (after, s))
    × (s.held_up ≡ false → count (is_due catalog true s.last) after ≡ 0)
sweep-ends_example =
    sweep-ends (λ k. takes_all) (λ e. codes "not sent") (λ k. 20 + k) catalog true three_runs
      (λ r. codes "timed out") true (λ i. none) 20 (failed_once ∷ []) unique_failed
