-- ===== src/Retry/Claim.antt =====
-- internal/retry/retry.go: the statements that take the steps to retry and the silent ones. Each is
-- one UPDATE of the rows that a subquery chose, in its order, at most batch of them, the rows that
-- another transaction holds skipped. manual.go's claims are here too.
pub mod Once
pub mod Chosen
pub mod Number
use katalog_manager.Base.{
  ℕ, ◌+◌, Bool, true, false, not, ◌&&◌, ◌||◌, Option, none, some, List, [], ◌∷◌, any, map, take,
  keep, coalesce, is_some, ltb, leb, ◌==◌, if◌then◌else◌,
}
use katalog_manager.Base.Choice.{choose}
use katalog_manager.Base.Text.{Text}
use katalog_manager.Processing.Vocab.{
  Step, Status, pending, done, failed, is_scan, is_failed, is_pending, is_in_progress, same_step,
  original_steps, pack, transcode, takein, tidb, chapter, chromaprint, blackframe, silence,
  subtitle,
}
use katalog_manager.Processing.Policy.{Policy, timeout, delays}
use katalog_manager.Processing.Table.{Row, has_key, update_where, retry_at}
use katalog_manager.Retry.Trigger.{triggered}

-- What the statements read of the catalog's other tables: an item's type (none: no such item),
-- whether its original is gone or going (library.OriginalGone), whether its file is a disc image
-- (processing.DiscImageOf); and the rows another transaction holds.
pub record Catalog : Type 0 where
  pub type_of : ℕ → Option ℕ
  pub original_gone : ℕ → Bool
  pub disc_image : ℕ → Bool
  pub held : ℕ → Bool

abbrev pub batch : ℕ
batch = 200

-- processing.FileSteps
abbrev pub file_steps : List Step
file_steps =
    tidb ∷ chapter ∷ chromaprint ∷ blackframe ∷ silence ∷ subtitle ∷ transcode ∷ pack ∷ takein ∷ []

abbrev pub one_of : Step → List Step → Bool
one_of s steps = any (same_step s) steps

-- heard: when a step was last written; none is minus infinity.
abbrev pub heard : Row → Option ℕ
heard r = coalesce r.modified (coalesce r.started r.created)

-- t < now - secs, with none before every time.
abbrev pub before : Option ℕ → ℕ → ℕ → Bool
before none now secs = true
before (some t) now secs = ltb (t + secs) now

-- withOriginal: a step that reads the title's original wants one; without migration 040 every
-- original is there.
unfoldable pub with_original : Catalog → Bool → Row → Bool
with_original c sources r =
    not sources || not (one_of r.step original_steps && c.original_gone r.item)

-- notDiscImage
unfoldable pub not_disc_image : Catalog → Row → Bool
not_disc_image c r = not (one_of r.step file_steps && c.disc_image r.item)

-- A row another transaction holds is skipped (FOR UPDATE SKIP LOCKED), LIMIT n takes the first n in
-- the order, and the rows' ids choose the rows to set.
abbrev pub among : List Row → Row → Bool
among chosen r = any (λ q. q.id == r.id) chosen

-- ORDER BY modifiedat, NULLs last; ORDER BY nextretryat, id; ORDER BY id.
abbrev pub by_modified : Row → Row → Bool
by_modified q r = elim q.modified [
  | none ↦ false
  | some a ↦ elim r.modified [ none ↦ true | some b ↦ ltb a b ]
]

abbrev pub by_next_retry : Row → Row → Bool
by_next_retry q r = elim q.next_retry [
  | none ↦ false
  | some a ↦ elim r.next_retry [ none ↦ true | some b ↦ ltb a b || (a == b && ltb q.id r.id) ]
]

abbrev pub by_id : Row → Row → Bool
by_id q r = ltb q.id r.id

-- A step claimed for a retry.
pub record Claimed : Type 0 where
  pub id : ℕ
  pub item : ℕ
  pub step : Step
  pub item_type : Option ℕ
  pub was : Status

abbrev pub claimed_of : Catalog → Row → Claimed
claimed_of c r = record {
  id = r.id;
  item = r.item;
  step = r.step;
  item_type = c.type_of r.item;
  was = r.status;
}

-- claimSet
unfoldable pub claim_set : Bool → ℕ → Row → Row
claim_set manual now r = record r {
  status = if is_scan r.step then done else pending;
  started = none;
  finished = if is_scan r.step then some now else none;
  error = none;
  next_retry = none;
  dispatched = some now;
  modified = some now;
  failures = if manual then 0 else r.failures;
}

-- A claim of the rows chosen, in the table's order.
unfoldable pub claim : Catalog → Bool → ℕ → List Row → List Row → List Row × List Claimed
claim c manual now chosen rows = (
  (update_where (among chosen) (claim_set manual now) rows).0,
  map (claimed_of c) (keep (among chosen) rows),
)

-- nextretryat <= now()
abbrev pub due_by : ℕ → Option ℕ → Bool
due_by now none = false
due_by now (some t) = leb t now

-- claimDue's condition: failed, its retry due, triggered by an event, of an item that is there, with
-- its original and no disc image.
unfoldable pub is_due : Catalog → Bool → ℕ → Row → Bool
unfolding with_original not_disc_image triggered
is_due c sources now r =
    is_failed r.status
    && due_by now r.next_retry
    && one_of r.step triggered
    && is_some (c.type_of r.item)
    && with_original c sources r
    && not_disc_image c r
    && not (c.held r.id)

-- claimDue
unfoldable pub claim_due : Catalog → Bool → ℕ → List Row → List Row × List Claimed
claim_due c sources now rows =
    claim c false now (choose by_next_retry batch (is_due c sources now) rows) rows

-- $1 = '' OR s.step = $1
abbrev pub of_step : Option Step → Step → Bool
of_step none s = true
of_step (some t) s = same_step s t

-- What RetryFailed claims: of one step when given.
unfoldable pub is_retryable : Catalog → Bool → Option Step → Row → Bool
unfolding with_original not_disc_image triggered
is_retryable c sources only r =
    is_failed r.status
    && of_step only r.step
    && one_of r.step triggered
    && is_some (c.type_of r.item)
    && with_original c sources r
    && not_disc_image c r
    && not (c.held r.id)

unfoldable pub claim_failed : Catalog → Bool → Option Step → ℕ → List Row → List Row × List Claimed
claim_failed c sources only now rows =
    claim c true now (choose by_id batch (is_retryable c sources only) rows) rows

-- What RetryStep claims of its step's row: failed, or silent past its timeout.
unfoldable pub is_idle : Policy → ℕ → Row → Bool
is_idle p now r =
    is_failed r.status
    || (is_in_progress r.status && before (heard r) now (timeout p r.step))
    || (is_pending r.status && before (coalesce r.dispatched (heard r)) now (timeout p r.step))

unfoldable pub claim_step : Catalog → Policy → ℕ → Step → ℕ → List Row → List Row × List Claimed
claim_step c p item step now rows =
    claim c true now (keep (λ r. has_key item step r && is_idle p now r) rows) rows

-- dispatchedat IS NOT NULL AND dispatchedat < now() - secs
abbrev pub sent_before : Option ℕ → ℕ → ℕ → Bool
sent_before none now secs = false
sent_before (some t) now secs = ltb (t + secs) now

-- reap's condition: in progress and silent past the step's timeout, or sent again and not started
-- within it.
unfoldable pub is_stale : Catalog → Policy → ℕ → Row → Bool
is_stale c p now r =
    ((is_in_progress r.status && before (heard r) now (timeout p r.step))
      || (is_pending r.status && sent_before r.dispatched now (timeout p r.step)))
    && not (c.held r.id)

-- What reap sets, with the message it writes.
unfoldable pub reap_set : (Row → Text) → Policy → ℕ → Row → Row
reap_set says p now r = record r {
  status = failed;
  finished = some now;
  modified = some now;
  error = some (says r);
  last_error = some (says r);
  failures = r.failures + 1;
  next_retry = retry_at now (delays p) (r.failures + 1);
  dispatched = none;
}

-- reap, and how many steps it took; says is the message of a row, from its status and timeout.
unfoldable pub reap : (Row → Text) → Catalog → Policy → ℕ → List Row → List Row × ℕ
reap says c p now rows =
    update_where (among (choose by_modified batch (is_stale c p now) rows)) (reap_set says p now)
      rows
