-- ===== src/Processing/Steps.antt =====
-- internal/processing/steps.go: Steps, which owns the table: its operations over the rows.
pub mod Reports
pub mod Operations
pub mod Promotion
pub mod Resets
use katalog_manager.Base.{
  ℕ, Bool, true, false, ◌&&◌, Option, none, some, List, [], ◌∷◌, ◌++◌, any, ◌==◌, if◌then◌else◌,
}
use Prim.Native.String.{String}
use katalog_manager.Base.Text.{Text, codes}
use katalog_manager.Processing.Vocab.{
  Step, Status, pack, pending, done, not_applicable, skipped, same_step, valid_step, valid_status,
  status_name,
}
use katalog_manager.Processing.Policy.{Policy, delays}
use katalog_manager.Processing.Errors.{clean_error?}
use katalog_manager.Processing.Table.{
  Row, Report, insert_row, update_row, update_row_legacy, upsert_rows, update_where, reset_row,
  reset_row_legacy,
}

-- The table, whether it has migration 033's columns, and what a Steps found of it (legacy).
pub record Steps : Type 0 where
  pub rows : List Row
  pub migrated : Bool
  pub legacy : Bool
  pub policy : Policy

pub data StepError : Type 0 where
  bad_step bad_status : StepError

pub data Result {ℓ} (A : Type ℓ) : Type ℓ where
  ok : A → Result A
  err : StepError → Result A

-- The rows of a table without migration 033's columns take the columns' defaults, which nothing
-- reads then.
unfoldable pub upsert_with : Bool → ℕ → ℕ → ℕ → Step → Report → Policy → List Row → List Row
upsert_with legacy now id item step rep p rows =
    upsert_rows item step (insert_row now id item step rep (delays p))
      (if legacy then update_row_legacy now rep else update_row now rep (delays p)) rows

-- s.legacy after a statement: set for good once a column is missing (42703).
abbrev pub now_legacy : Steps → Bool
now_legacy s = if s.legacy then true else if s.migrated then false else true

-- case StatusDone, StatusNotApplicable, StatusSkipped
abbrev promotes : Status → Bool
promotes done = true
promotes not_applicable = true
promotes skipped = true
promotes _ = false

module _ (redact : Text → Text) where
  -- Upsert: the words checked, the error cleaned, and the statement, written again without the
  -- columns once they turn out to be missing. id is the row's, if one is inserted.
  unfoldable pub upsert :
      ℕ → ℕ → ℕ → String → String → Option Text → Option Text → Steps → Result Steps
  unfolding upsert_with clean_error?
  upsert now id item step status error details s = elim (valid_step step) [
    | none ↦ err bad_step
    | some st ↦ elim (valid_status status) [
      | none ↦ err bad_status
      | some w ↦
          let rep : Report = record {
            status = w;
            error = clean_error? redact error;
            details = details;
          } in
          ok (record s {
            rows = upsert_with (now_legacy s) now id item st rep s.policy s.rows;
            legacy = now_legacy s;
          })
    ]
  ]

  -- PromoteTranscodeToPackage, of a status as its worker gave it
  unfoldable pub promote_transcode_to_package : ℕ → ℕ → ℕ → String → Steps → Result Steps
  promote_transcode_to_package now id item transcode_status s =
      elim (valid_status transcode_status) [
        | none ↦ ok s
        | some w ↦
            if promotes w
            then upsert now id item "package" "pending" none
                (some (codes "auto-promoted after transcode=" ++ codes transcode_status)) s
            else ok s
      ]

-- ResetForItems, and how many rows it reset.
unfoldable pub reset_for_items : ℕ → List ℕ → List Step → Steps → Steps × ℕ
reset_for_items now items steps s =
    let (rows, n) =
      update_where (λ r. any (λ i. r.item == i) items && any (same_step r.step) steps)
        (if now_legacy s then reset_row_legacy now else reset_row now) s.rows in
    elim items [
      | [] ↦ (s, 0)
      | i ∷ is ↦ elim steps [
        | [] ↦ (s, 0)
        | st ∷ sts ↦ (record s { rows = rows; legacy = now_legacy s }, n)
      ]
    ]
