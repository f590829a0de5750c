-- ===== src/Tests/Queue.antt =====
-- Cases of the queue's and the window's theorems.
use katalog_manager.Base.{ℕ, ◌≤◌, max, refl, true, false, none, some, List, [], ◌∷◌, count}
use katalog_manager.Base.Text.{codes}
use katalog_manager.Retry.Queue.{Entry, QueueState, by_items, queued, sent, is_sent}
use katalog_manager.Retry.Queue.Send.{World, Limits, send_queued}
use katalog_manager.Retry.Queue.Drain.{Gate, no_pass, drain_queue}
use katalog_manager.Retry.Queue.States.{drain_queue-Follows}
use katalog_manager.Retry.Queue.Writes.{Pairs, Follows}
use katalog_manager.Retry.Queue.Inflight.{send_queued-inflight}
use katalog_manager.Tests.Samples.{facts, three_runs, chain_rows, takes_all}

abbrev world : World
world = record {
  facts = facts;
  type_of = λ i. some 0;
  new_ids = λ i. (100, 101);
  busy_words = λ b. codes "busy";
  publish = takes_all;
  says = λ e. codes "not sent";
}

abbrev entry_of : ℕ → ℕ → QueueState → Entry
entry_of id item s = record {
  id = id;
  item = item;
  seq = id;
  selection = by_items;
  state = s;
  reason = none;
  sent_at = none;
  done_at = none;
}

abbrev two_entries : List Entry
two_entries = entry_of 1 7 queued ∷ entry_of 2 8 sent ∷ []

abbrev limits : Limits
limits = record { rate = 2; inflight = 3 }

abbrev gate : Gate
gate = record {
  queue_table = none;
  step_table = none;
  unavailable = none;
  locked = true;
  window_error = codes "no window";
  minute = 60;
}

send_queued-inflight_example :
    let out = (send_queued world three_runs limits 50 chain_rows two_entries no_pass).1 in
    (count is_sent out.0 ≤ max (count is_sent two_entries) 3) × (out.1.sent ≤ 2)
send_queued-inflight_example =
    send_queued-inflight world three_runs limits 50 chain_rows two_entries no_pass
      (unfold count in (refl, (refl, tt))) refl

drain_queue-Follows_example :
    Pairs Follows two_entries
      (drain_queue world
        (λ q. false)
        gate
        three_runs
        (record { limits = limits; window = codes "23:00-07:00" })
        50
        chain_rows
        two_entries).1.0
drain_queue-Follows_example =
    drain_queue-Follows world (λ q. false) gate three_runs
      (record { limits = limits; window = codes "23:00-07:00" }) 50 chain_rows two_entries
