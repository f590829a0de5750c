-- ===== src/Tests/Manual.antt =====
-- Cases of the theorems on a request for the queue and on a retry by hand.
use katalog_manager.Base.{
  false, ◌≡◌, refl, true, none, some, List, [], ◌∷◌, arith, count, suc, any, ◌==◌, ◌≤◌, ◌+◌,
}
use katalog_manager.Base.Text.{codes}
use katalog_manager.Processing.Vocab.{done, tidb}
use katalog_manager.Processing.Table.{find_row, has_key, same_key}
use katalog_manager.Processing.Vocab.{same_step}
use katalog_manager.Processing.Table.{Row}
use katalog_manager.Retry.Claim.{claim, claim_step, is_idle}
use katalog_manager.Retry.Manual.{
  Room, retry_triggered, retry_claimed, refuse_retry, left_alone, is_status, why_not,
}
use katalog_manager.Retry.Claim.{is_retryable}
use katalog_manager.Retry.Claim.Once.{has_id}
use katalog_manager.Retry.Failed.{Total, retry_failed, retried_all}
use katalog_manager.Retry.Failed.Rounds.{retry_failed-ends}
use katalog_manager.Retry.Queue
use katalog_manager.Retry.Queue.{is_sent, unqueueable_of, unencodable, blocked}
use katalog_manager.Retry.Queue.Enqueue.{
  Names, Request, title, enqueue, picks_of, pick_names, pick_name, pick_kind, pick_all, pick, taken,
  is_active_of,
}
use katalog_manager.Retry.Queue.Enqueue.Once.{IsOnce, enqueue-IsOnce}
use katalog_manager.Tests.Samples.{failed_once, facts, three_runs, row_of_step, catalog, takes_all}
use katalog_manager.Processing.Table.{update_where}
use katalog_manager.Base.{keep}
use katalog_manager.Retry.Trigger.{trigger}

abbrev room : Room
room = record { step_table = true; bus = true; sources = true; catalog = catalog }

abbrev done_rows : List Row
done_rows = row_of_step 1 tidb done ∷ []

done_left :
    retry_triggered takes_all (λ e. codes "not sent") room three_runs 50 7 tidb done_rows
    ≡ (done_rows, left_alone (is_status done 1))
unfolding retry_triggered retry_claimed refuse_retry claim claim_step is_idle find_row has_key
    same_key same_step why_not update_where keep trigger
done_left = refl

abbrev names : Names
names = record {
  holder = λ i. i;
  kind_of = λ i. some title;
  episodes_of = λ i. [];
  held_titles = 7 ∷ [];
  all_titles = 7 ∷ 8 ∷ [];
  facts = facts;
}

abbrev request : Request
request = record { items = some 7 ∷ some 7 ∷ []; held = true; all = true }

empty-IsOnce : IsOnce []
unfolding count
empty-IsOnce item = omega arith

enqueue-IsOnce_example :
    let p = picks_of names request in
    let qs' = (enqueue names 1 request []).0 in
    (count (λ t. t.0 == 8) p.titles + count (λ t. t.0 == 8) p.skipped ≤ 1)
    × ((any (λ t. t.0 == 8) p.titles ≡ true)
        → unqueueable_of facts 8 ≡ none
        → any (is_active_of 8) qs' ≡ true)
    × (count (is_active_of 8) qs' ≤ 1)
enqueue-IsOnce_example = enqueue-IsOnce names 1 request [] empty-IsOnce 8

two_picked : (picks_of names request).titles ≡ (7, Queue.by_items) ∷ (8, Queue.by_all) ∷ []
unfolding picks_of pick_names pick_name pick_kind pick_all pick taken
two_picked = refl

eight_queued : unqueueable_of facts 8 ≡ none
unfolding unqueueable_of unencodable blocked
eight_queued = refl

abbrev sent_entry : Queue.Entry
sent_entry = record {
  id = 1;
  item = 7;
  seq = 1;
  selection = Queue.by_items;
  state = Queue.sent;
  reason = none;
  sent_at = some 2;
  done_at = none;
}

retry_failed-ends_example :
    let test = is_retryable catalog true none in
    (after : List Row) × (total : Total) × (retry_failed
        (λ k. takes_all)
        (λ e. codes "not sent")
        (λ k. 50)
        room
        false
        (suc (count test (failed_once ∷ [])))
        none
        (failed_once ∷ [])
      ≡ some (after, retried_all total))
    × (total.unsent ≡ 0 → count test after ≡ 0)
retry_failed-ends_example =
    retry_failed-ends (λ k. takes_all) (λ e. codes "not sent") (λ k. 50) room none
      (failed_once ∷ []) refl refl (unfold has_id in (refl, tt))
