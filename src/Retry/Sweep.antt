-- ===== src/Retry/Sweep.antt =====
-- internal/retry/retry.go: Sweep, with settleTakeIns of takein.go. The clock and what publish answers are
-- those of each round of its loop; a context that is cancelled is left out.
pub mod Ends
use katalog_manager.Base.{
  ℕ, zero, suc, ◌+◌, Bool, true, false, not, ◌&&◌, ◌||◌, Option, none, some, List, [], ◌∷◌, ◌++◌,
  any, length, is_some, ltb, ◌==◌, if◌then◌else◌,
}
use katalog_manager.Base.Text.{Text, codes}
use katalog_manager.Processing.Vocab.{done, takein, is_failed, same_step}
use katalog_manager.Processing.Policy.{Policy}
use katalog_manager.Processing.Table.{Row, update_where}
use katalog_manager.Retry.Claim.{Catalog, batch, claim_due, reap}
use katalog_manager.Retry.Dispatch.{Message, as_retry, dispatch}
use katalog_manager.Retry.Failed.{is_nonempty}

-- settleTakeIns: a failed take-in whose title's version is there; no ids are all titles.
unfoldable pub is_taken : (ℕ → Option Text) → List ℕ → Row → Bool
is_taken version_of ids r =
    same_step r.step takein
    && is_failed r.status
    && (not (is_nonempty ids) || any (λ i. i == r.item) ids)
    && is_some (version_of r.item)

abbrev taken_in : Option Text → Text
taken_in none = []
taken_in (some v) =
    codes "taken in: version " ++ (v ++ codes " holds its original (its report was lost)")

unfoldable pub taken_set : (ℕ → Option Text) → ℕ → Row → Row
taken_set version_of now r = record r {
  status = done;
  finished = some now;
  modified = some now;
  error = none;
  failures = 0;
  next_retry = none;
  dispatched = none;
  details = some (taken_in (version_of r.item));
}

-- version_of is the version that holds the original of a title's primary asset, if one is there; ready is
-- that migration 044 has run.
unfoldable pub settle_take_ins : Bool → (ℕ → Option Text) → List ℕ → ℕ → List Row → List Row
unfolding is_taken taken_set
settle_take_ins false version_of ids now rows = rows
settle_take_ins true version_of ids now rows =
    (update_where (is_taken version_of ids) (taken_set version_of now) rows).0

-- What the sweep answers, and how its loop ended: the time of its last claim, and whether events could not
-- be sent.
pub record Swept : Type 0 where
  pub reaped : ℕ
  pub sent : ℕ
  pub last : ℕ
  pub held_up : Bool

module _ (publish : ℕ → List Message → List (Option Text)) (says : Option Text → Text)
    (clock : ℕ → ℕ) (c : Catalog) (sources : Bool) (p : Policy) where
  -- The loop, in its k-th round, with n rounds at most, so many steps sent before; none is a loop that has
  -- not ended by then.
  unfoldable pub sweep_rounds : ℕ → ℕ → ℕ → ℕ → List Row → Option (List Row × Swept)
  unfolding claim_due dispatch
  sweep_rounds zero k reaped sent rows = none
  sweep_rounds (suc n) k reaped sent rows =
      let (rows', claimed) = claim_due c sources (clock k) rows in
      let (after, o) = dispatch (publish k) says as_retry (clock k) true p.backoff claimed rows' in
      let rest = sweep_rounds n (suc k) reaped (sent + o.sent) after in
      if ltb (length claimed) batch || is_nonempty o.not_sent
      then some (
        after,
        record {
          reaped = reaped;
          sent = sent + o.sent;
          last = clock k;
          held_up = is_nonempty o.not_sent;
        },
      )
      else rest

  -- Sweep; unavailable is that no step can be retried, and timed_out the message of a silent step.
  unfoldable pub sweep :
      Bool → (Row → Text) → Bool → (ℕ → Option Text) → ℕ → ℕ → List Row → Option (List Row × Swept)
  unfolding reap settle_take_ins sweep_rounds
  sweep true timed_out ready version_of now n rows =
      some (rows, record { reaped = 0; sent = 0; last = now; held_up = false })
  sweep false timed_out ready version_of now n rows =
      let (rows', reaped) = reap timed_out c p now rows in
      sweep_rounds n 0 reaped 0 (settle_take_ins ready version_of [] now rows')
