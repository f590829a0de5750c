-- ===== src/Retry/Reencode.antt =====
-- internal/retry/reencode.go: a title's transcode and package are claimed for a re-encode (reset),
-- unless one of them runs or waits for its worker within its timeout (busy).
pub mod Idle
use katalog_manager.Base.{
  ℕ, zero, suc, ◌+◌, Bool, true, false, not, ◌&&◌, ◌||◌, Option, none, some, List, [], ◌∷◌,
  coalesce, is_some, bind, leb, ltb, ◌==◌, if◌then◌else◌,
}
use mathlib.Core.Option
use katalog_manager.Processing.Vocab.{
  Step, Status, pending, in_progress, done, not_applicable, skipped, failed, transcode, pack,
  chapter, chromaprint, blackframe, silence, subtitle, takein,
}
use katalog_manager.Processing.Policy.{Policy, timeout}
use katalog_manager.Processing.Table.{Row, find_row, upsert_rows, update_where, has_key}
use katalog_manager.Retry.Claim.{heard}

-- reencodeSet
abbrev pub sent_now : Step → ℕ → Option ℕ
sent_now transcode now = some now
sent_now _ now = none

unfoldable pub reencode_set : ℕ → Row → Row
reencode_set now r = record r {
  status = pending;
  started = none;
  finished = none;
  error = none;
  modified = some now;
  failures = 0;
  next_retry = none;
  dispatched = sent_now r.step now;
}

-- chainStep: a step as a re-encode finds it.
pub record ChainStep : Type 0 where
  pub status : Status
  pub sent : Bool
  pub within : Bool
  pub since : Option ℕ

-- t >= now() - secs, with none before every time
abbrev pub not_before : Option ℕ → ℕ → ℕ → Bool
not_before none now secs = false
not_before (some t) now secs = leb now (t + secs)

abbrev pub within_timeout : Policy → ℕ → Row → Status → Bool
within_timeout p now r in_progress = not_before (heard r) now (timeout p r.step)
within_timeout p now r pending = not_before (coalesce r.dispatched (heard r)) now (timeout p r.step)
within_timeout p now r _ = false

-- What stepsOf reads of a row.
unfoldable pub chain_step : Policy → ℕ → Row → ChainStep
chain_step p now r = record {
  status = r.status;
  sent = is_some r.dispatched;
  within = within_timeout p now r r.status;
  since = coalesce r.dispatched (coalesce r.modified (coalesce r.started r.created));
}

-- Why a title is left alone: a step that runs, or one that waits for its worker, and since when.
pub data Busy : Type 0 where
  running : Step → Option ℕ → Busy
  waiting : Step → Option ℕ → Busy

abbrev pub over : Status → Bool
over done = true
over not_applicable = true
over skipped = true
over _ = false

-- transcoded: the title has no transcode, or one that is over and did not fail.
unfoldable pub transcoded : Option ChainStep → Bool
transcoded none = true
transcoded (some c) = over c.status

-- The switch on the status of a step within its timeout; waits says that it is a package which waits
-- for its transcode.
abbrev pub busy_status : Step → Bool → ChainStep → Status → Option Busy
busy_status step waits c in_progress = some (running step c.since)
busy_status step waits c pending = if waits then none else some (waiting step c.since)
busy_status step waits c _ = none

-- What the loop of busy says of one step, none to go on.
unfoldable pub busy_step : Step → Bool → ChainStep → Option Busy
busy_step step waits c = if c.within then busy_status step waits c c.status else none

-- busy, of the transcode and the package that the title had
unfoldable pub busy : Option ChainStep → Option ChainStep → Option Busy
busy tr p =
    coalesce (bind tr (busy_step transcode false))
      (bind p (λ c. busy_step pack (not c.sent && not (transcoded tr)) c))

-- The row that the reset adds for a step that the title lacks: waiting, no run yet.
unfoldable pub added_row : ℕ → ℕ → ℕ → Step → Row
added_row now id item step = record {
  id = id;
  item = item;
  step = step;
  status = pending;
  created = some now;
  modified = some now;
  started = none;
  finished = none;
  attempts = some 0;
  error = none;
  details = none;
  failures = 0;
  last_error = none;
  next_retry = none;
  dispatched = none;
}

abbrev pub is_chain : ℕ → Row → Bool
is_chain item r = has_key item transcode r || has_key item pack r

-- What a reset answers: the transcode's row, or why the title was left alone.
pub data Reset : Type 0 where
  claimed : Option ℕ → Reset
  left : Busy → Reset

-- Its end: the transaction's commit, or nothing for a busy title.
unfoldable pub finish_reset : ℕ → List Row → List Row → Option Busy → List Row × Reset
finish_reset item rows set (some why) = (rows, left why)
finish_reset item rows set none =
    (set, claimed (Option.map (λ r. r.id) (find_row item transcode set)))

-- reset, with the ids of the rows that it may add: all of it, or nothing, as its transaction is.
unfoldable pub reset : Policy → ℕ → ℕ → ℕ → ℕ → List Row → List Row × Reset
reset p now tr_id pack_id item rows =
    let tr = Option.map (chain_step p now) (find_row item transcode rows) in
    let pk = Option.map (chain_step p now) (find_row item pack rows) in
    let added =
      upsert_rows item pack (added_row now pack_id item pack) (λ r. r)
        (upsert_rows item transcode (added_row now tr_id item transcode) (λ r. r) rows) in
    let set = (update_where (is_chain item) (reencode_set now) added).0 in
    finish_reset item rows set (busy tr pk)
