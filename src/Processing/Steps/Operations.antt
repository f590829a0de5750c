-- ===== src/Processing/Steps/Operations.antt =====
-- What Upsert does to the table.
use katalog_manager.Base.{
  ℕ, ◌≡◌, refl, Bool, true, false, Option, none, some, List, arith, ◌∙◌, Option-cases, Bool-cases,
  inl, inr, ◌⊎◌, if◌then◌else◌,
}
use mathlib.Core.Path.{subst}
use Prim.Native.String.{String}
use katalog_manager.Base.Text.{Text}
use katalog_manager.Processing.Vocab.{Step, Status, valid_step, valid_status}
use katalog_manager.Processing.Policy.{Policy, delays}
use katalog_manager.Processing.Errors.{clean_error?}
use katalog_manager.Processing.Table.{
  Row, Report, same_key, upserted, insert_row, update_row, update_row_legacy, find_row,
}
use katalog_manager.Processing.Table.Keys.{
  KeepsKeys, HasUniqueKeys, find_row-upsert_rows, HasUniqueKeys-upsert_rows, KeepsKeys-has_key,
  has_key-new,
}
use katalog_manager.Processing.Steps.{
  Steps, bad_step, bad_status, ok, err, upsert_with, now_legacy, upsert,
}

update_row-KeepsKeys : (now : ℕ) (rep : Report) (ds : List ℕ) → KeepsKeys (update_row now rep ds)
unfolding update_row
update_row-KeepsKeys now rep ds r = (refl, refl)

update_row_legacy-KeepsKeys : (now : ℕ) (rep : Report) → KeepsKeys (update_row_legacy now rep)
unfolding update_row_legacy
update_row_legacy-KeepsKeys now rep r = (refl, refl)

insert_row-key :
    (now id item : ℕ) (st : Step) (rep : Report) (ds : List ℕ)
    → ((insert_row now id item st rep ds).item ≡ item)
      × ((insert_row now id item st rep ds).step ≡ st)
unfolding insert_row
insert_row-key now id item st rep ds = (refl, refl)

module _ (legacy : Bool) (now id item : ℕ) (st : Step) (rep : Report) (p : Policy)
    (rows : List Row) where
  -- The row that the statement makes of a row.
  abbrev written : Row → Row
  written = if legacy then update_row_legacy now rep else update_row now rep (delays p)

  written-KeepsKeys : KeepsKeys written
  written-KeepsKeys r = elim (Bool-cases legacy) [
    | inl e ↦ rw e (update_row_legacy-KeepsKeys now rep r)
    | inr e ↦ rw e (update_row-KeepsKeys now rep (delays p) r)
  ]

  find_row-upsert_with :
      (i : ℕ) (t : Step)
      → find_row i t (upsert_with legacy now id item st rep p rows) ≡ (
          if same_key i t item st
          then some
              (upserted (insert_row now id item st rep (delays p)) written (find_row item st rows))
          else find_row i t rows)
  unfolding upsert_with
  find_row-upsert_with i t =
      let (hi, hs) = insert_row-key now id item st rep (delays p) in
      find_row-upsert_rows item st (insert_row now id item st rep (delays p)) written rows i t
        (has_key-new item st _ hi hs)
        (λ r h. KeepsKeys-has_key written item st r written-KeepsKeys ∙ h)

  HasUniqueKeys-upsert_with :
      HasUniqueKeys rows → HasUniqueKeys (upsert_with legacy now id item st rep p rows)
  unfolding upsert_with
  HasUniqueKeys-upsert_with u =
      let (hi, hs) = insert_row-key now id item st rep (delays p) in
      HasUniqueKeys-upsert_rows item st (insert_row now id item st rep (delays p)) written rows hi
        hs written-KeepsKeys u

-- A report of a step and a status that the pipeline has is taken: it writes the row of the item's
-- step alone, a new one where there was none and the old one updated where there was, with the error
-- cleaned, and every other key finds the row it found before.
pub find_row-upsert :
    (redact : Text → Text) (now id item : ℕ) (step status : String) (error details : Option Text)
    (s : Steps) (st : Step) (w : Status) (i : ℕ) (t : Step)
    → s.migrated ≡ true
    → s.legacy ≡ false
    → valid_step step ≡ some st
    → valid_status status ≡ some w
    → let rep : Report = record {
      status = w;
      error = clean_error? redact error;
      details = details;
    } in
      (s' : Steps) × (upsert redact now id item step status error details s ≡ ok s')
      × (find_row i t s'.rows ≡ (
          if same_key i t item st
          then some (
              upserted
                (insert_row now id item st rep (delays s.policy))
                (update_row now rep (delays s.policy))
                (find_row item st s.rows))
          else find_row i t s.rows))
unfolding upsert
find_row-upsert redact now id item step status error details s st w i t m l hs hw =
    let rep : Report = record {
      status = w;
      error = clean_error? redact error;
      details = details;
    } in
    (
      record s { rows = upsert_with false now id item st rep s.policy s.rows; legacy = false },
      ground arith,
      find_row-upsert_with false now id item st rep s.policy s.rows i t,
    )

-- A word that is no step or no status is refused, whatever else is reported, and nothing is written.
pub upsert_refused :
    (redact : Text → Text) (now id item : ℕ) (step status : String) (error details : Option Text)
    (s : Steps)
    → (valid_step step ≡ none) ⊎ (valid_status status ≡ none)
    → upsert redact now id item step status error details s
      ≡ err (elim (valid_step step) [ none ↦ bad_step | some _ ↦ bad_status ])
unfolding upsert
upsert_refused redact now id item step status error details s h = ground arith

-- Whatever is reported, to a table with migration 033's columns or without them, no item's step has
-- two rows.
pub HasUniqueKeys-upsert :
    (redact : Text → Text) (now id item : ℕ) (step status : String) (error details : Option Text)
    (s s' : Steps)
    → HasUniqueKeys s.rows
    → upsert redact now id item step status error details s ≡ ok s'
    → HasUniqueKeys s'.rows
unfolding upsert
HasUniqueKeys-upsert redact now id item step status error details s s' u h =
    elim (Option-cases (valid_step step)) [
      | inl e ↦ absurd (ground arith)
      | inr (st, e) ↦ elim (Option-cases (valid_status status)) [
        | inl f ↦ absurd (ground arith)
        | inr (w, f) ↦
            let rep : Report = record {
              status = w;
              error = clean_error? redact error;
              details = details;
            } in
            let same : upsert_with (now_legacy s) now id item st rep s.policy s.rows ≡ s'.rows =
              ground arith in
            subst HasUniqueKeys same
              (HasUniqueKeys-upsert_with (now_legacy s) now id item st rep s.policy s.rows u)
      ]
    ]
