-- ===== src/Retry/Queue/Drain.antt =====
-- internal/retry/queue.go: queueIdle and DrainQueue, a pass over the queue. What it finds of the
-- tables, the lock and the event bus is in its Gate; the compliance check, told of the titles that
-- ended, is not modelled.
use katalog_manager.Base.{
  ℕ, Bool, not, Option, none, some, List, ◌++◌, count, ◌==◌, if◌then◌else◌, coalesce,
}
use katalog_manager.Base.Text.{Text, codes, trim_space}
use katalog_manager.Processing.Policy.{Policy}
use katalog_manager.Processing.Table.{Row}
use katalog_manager.Library.Window.{parse_window, contains}
use katalog_manager.Retry.Queue.{Entry, is_queued}
use katalog_manager.Retry.Queue.Finish.{finish_sent}
use katalog_manager.Retry.Queue.Send.{World, Limits, Pass, send_queued}

-- library.Settings, what a pass reads of it.
pub record Settings : Type 0 where
  pub limits : Limits
  pub window : Text

-- Why the queue's table, the step table and the bus are not there (queueTable, stepTable,
-- unavailable), whether this instance has the queue's lock, the words of a window that does not
-- parse, and the time of day.
pub record Gate : Type 0 where
  pub queue_table : Option Text
  pub step_table : Option Text
  pub unavailable : Option Text
  pub locked : Bool
  pub window_error : Text
  pub minute : ℕ

-- queueIdle's test of the window.
unfoldable pub idle_window : Gate → Text → Option Text
idle_window g window = elim (parse_window window) [
  | none ↦ some (
      codes "library.reencode.window: "
      ++ g.window_error
      ++ codes "; nothing is sent until it reads")
  | some w ↦
      if contains w g.minute
      then none
      else some (codes "outside library.reencode.window (" ++ trim_space window ++ codes ")")
]

-- queueIdle
unfoldable pub queue_idle : Gate → Settings → Option Text
unfolding idle_window
queue_idle g s = coalesce g.unavailable (
    if s.limits.rate == 0
    then some (codes "library.reencode.rate is 0")
    else idle_window g s.window)

abbrev pub no_pass : Pass
no_pass = record {
  done = 0;
  failed = 0;
  sent = 0;
  busy = 0;
  not_sent = 0;
  refused = 0;
  idle = none;
  waiting = 0;
}

-- The end of a pass: nothing is sent while it is idle.
unfoldable pub drain_rest :
    World
    → Policy
    → Settings
    → ℕ
    → Option Text
    → List Row
    → List Entry
    → Pass
    → List Row × (List Entry × Pass)
unfolding send_queued
drain_rest e p s now (some why) rows qs pass =
    (rows, (qs, record pass { idle = some why; waiting = count is_queued qs }))
drain_rest e p s now none rows qs pass = send_queued e p s.limits now rows qs pass

-- A pass past its tables.
unfoldable pub drain_ready :
    World
    → (Entry → Bool)
    → Gate
    → Policy
    → Settings
    → ℕ
    → List Row
    → List Entry
    → List Row × (List Entry × Pass)
unfolding queue_idle finish_sent drain_rest
drain_ready e held g p s now rows qs =
    let (qs', (d, f)) = finish_sent held now rows qs in
    if not g.locked
    then (rows, (qs, no_pass))
    else drain_rest e p s now (queue_idle g s) rows qs' (record no_pass { done = d; failed = f })

unfoldable pub drain_as :
    World
    → (Entry → Bool)
    → Gate
    → Policy
    → Settings
    → ℕ
    → Option Text
    → List Row
    → List Entry
    → List Row × (List Entry × Pass)
unfolding drain_ready
drain_as e held g p s now (some why) rows qs = (rows, (qs, record no_pass { idle = some why }))
drain_as e held g p s now none rows qs = drain_ready e held g p s now rows qs

-- DrainQueue
unfoldable pub drain_queue :
    World
    → (Entry → Bool)
    → Gate
    → Policy
    → Settings
    → ℕ
    → List Row
    → List Entry
    → List Row × (List Entry × Pass)
unfolding drain_as
drain_queue e held g p s now rows qs =
    drain_as e held g p s now (coalesce g.queue_table g.step_table) rows qs
