-- ===== src/Retry/Reencode/Idle.antt =====
-- internal/retry/reencode.go: which titles a re-encode takes, and what it sets of their steps.
use katalog_manager.Base.{
  ℕ, ◌+◌, ◌≤◌, ◌≡◌, ◌≢◌, refl, sym, ◌∙◌, Bool, true, false, ◌||◌, Option, none, some, List, arith,
  Option-cases, inl, inr, ◌⊎◌,
}
use mathlib.Core.Option
use katalog_manager.Processing.Vocab.{Step, in_progress, transcode, pack, same_step}
use katalog_manager.Processing.Policy.{Policy, timeout}
use katalog_manager.Processing.Table.{
  Row, find_row, has_key, same_key, upserted, upsert_rows, update_where,
}
use katalog_manager.Processing.Table.Keys.{
  KeepsKeys, find_row-upsert_rows, find_row-update_where, same_key_refl, find_row-has_key,
  has_key-new, same_key-eq,
}
use katalog_manager.Retry.Reencode.{
  ChainStep, Busy, claimed, left, waiting, busy, busy_step, chain_step, finish_reset, reset,
  reencode_set, added_row, is_chain,
}

module _ (now : ℕ) (tr_id pack_id item : ℕ) (rows : List Row) where
  -- The table with the steps that the title lacked.
  abbrev with_chain : List Row
  with_chain =
      upsert_rows item pack (added_row now pack_id item pack) (λ r. r)
        (upsert_rows item transcode (added_row now tr_id item transcode) (λ r. r) rows)

  abbrev set_rows : List Row
  set_rows = (update_where (is_chain item) (reencode_set now) with_chain).0

added_row-has_key : (now id item : ℕ) (s : Step) → has_key item s (added_row now id item s) ≡ true
added_row-has_key now id item s =
    has_key-new item s (added_row now id item s) (unfold added_row in refl)
      (unfold added_row in refl)

other_keys :
    (i j : ℕ) → (same_key i transcode j pack ≡ false) × (same_key i pack j transcode ≡ false)
unfolding same_key same_step
other_keys i j = ground arith

reencode_set-KeepsKeys : (now : ℕ) → KeepsKeys (reencode_set now)
unfolding reencode_set
reencode_set-KeepsKeys now r = (refl, refl)

or-true : (b : Bool) → (b || true) ≡ true
or-true b = ground arith

is_chain_of :
    (item : ℕ) (s : Step) (r : Row)
    → (s ≡ transcode) ⊎ (s ≡ pack)
    → has_key item s r ≡ true
    → is_chain item r ≡ true
is_chain_of item s r (inl e) h = let here : has_key item transcode r ≡ true = rw e at h in rw here
is_chain_of item s r (inr e) h =
    let here : has_key item pack r ≡ true = rw e at h in
    rw here (or-true (has_key item transcode r))

module _ (now : ℕ) (tr_id pack_id item : ℕ) (rows : List Row) where
  find_row-with_chain-transcode :
      find_row item transcode (with_chain now tr_id pack_id item rows)
      ≡ some (upserted (added_row now tr_id item transcode) (λ r. r) (find_row item transcode rows))
  find_row-with_chain-transcode =
      find_row-upsert_rows item pack (added_row now pack_id item pack) (λ r. r)
        (upsert_rows item transcode (added_row now tr_id item transcode) (λ r. r) rows) item
        transcode (added_row-has_key now pack_id item pack) (λ r h. h)
      ∙ rw (other_keys item item).0 (
          find_row-upsert_rows item transcode (added_row now tr_id item transcode) (λ r. r) rows
            item transcode (added_row-has_key now tr_id item transcode) (λ r h. h)
          ∙ rw (same_key_refl item transcode))

  find_row-with_chain-pack :
      find_row item pack (with_chain now tr_id pack_id item rows)
      ≡ some (upserted (added_row now pack_id item pack) (λ r. r) (find_row item pack rows))
  find_row-with_chain-pack =
      find_row-upsert_rows item pack (added_row now pack_id item pack) (λ r. r)
        (upsert_rows item transcode (added_row now tr_id item transcode) (λ r. r) rows) item pack
        (added_row-has_key now pack_id item pack) (λ r h. h)
      ∙ rw (
        same_key_refl item pack,
        find_row-upsert_rows item transcode (added_row now tr_id item transcode) (λ r. r) rows item
            pack (added_row-has_key now tr_id item transcode) (λ r h. h),
        (other_keys item item).1,
      )

  set_chain :
      (s : Step) (r : Row)
      → (s ≡ transcode) ⊎ (s ≡ pack)
      → find_row item s (with_chain now tr_id pack_id item rows) ≡ some r
      → find_row item s (set_rows now tr_id pack_id item rows) ≡ some (reencode_set now r)
  set_chain s r c h =
      find_row-update_where (is_chain item) (reencode_set now)
        (with_chain now tr_id pack_id item rows) item s (reencode_set-KeepsKeys now)
      ∙ rw h (rw (is_chain_of item s r c (find_row-has_key item s _ r h)))

module _ (p : Policy) (now tr_id pack_id item : ℕ) (rows : List Row) where
  -- What the title's chain is busy with.
  abbrev busy_now : Option Busy
  busy_now =
      busy (Option.map (chain_step p now) (find_row item transcode rows))
        (Option.map (chain_step p now) (find_row item pack rows))

  reset_left :
      (why : Busy) → busy_now ≡ some why → reset p now tr_id pack_id item rows ≡ (rows, left why)
  unfolding reset finish_reset
  reset_left why e = rw e

  reset-idle :
      {o : Option ℕ}
      → (reset p now tr_id pack_id item rows).1 ≡ claimed o
      → ((reset p now tr_id pack_id item rows).0 ≡ set_rows now tr_id pack_id item rows)
        × (busy_now ≡ none)
  reset-idle h = elim (Option-cases busy_now) [
    | inl e ↦ (unfold reset finish_reset in rw e, e)
    | inr (why, e) ↦ absurd (let kept = reset_left why e in ground arith)
  ]

-- A title that is idle has both of its steps wait for their workers afresh: no run, no error, no
-- failures, no retry; the transcode's trigger is noted as sent now, the package's is not; what the
-- title had of attempts and last errors stays, and a step that it lacked has run 0 times.
pub reset-chain :
    (p : Policy) (now tr_id pack_id item : ℕ) (rows : List Row) {o : Option ℕ}
    → (reset p now tr_id pack_id item rows).1 ≡ claimed o
    → let rows' = (reset p now tr_id pack_id item rows).0 in
      (find_row item transcode rows'
        ≡ some (
            reencode_set now (
              upserted
                (added_row now tr_id item transcode)
                (λ r. r)
                (find_row item transcode rows))))
      × (find_row item pack rows'
          ≡ some (
              reencode_set now
                (upserted (added_row now pack_id item pack) (λ r. r) (find_row item pack rows))))
reset-chain p now tr_id pack_id item rows h =
    let (same, idle) = reset-idle p now tr_id pack_id item rows h in
    rw same (
      set_chain now tr_id pack_id item rows transcode _ (inl refl)
          (find_row-with_chain-transcode now tr_id pack_id item rows),
      set_chain now tr_id pack_id item rows pack _ (inr refl)
          (find_row-with_chain-pack now tr_id pack_id item rows),
    )

busy-sent :
    (p : Policy) (now later : ℕ) (r : Row) (pk : Option ChainStep)
    → (reencode_set now r).step ≡ transcode
    → later ≤ now + timeout p transcode
    → busy (some (chain_step p later (reencode_set now r))) pk ≡ some (waiting transcode (some now))
unfolding busy busy_step chain_step reencode_set
busy-sent p now later r pk e l = ground arith

has_key-step : (i : ℕ) (s : Step) (r : Row) → has_key i s r ≡ true → r.step ≡ s
unfolding has_key
has_key-step i s r h = let (a, b) = same_key-eq i r.item s r.step h in sym b

-- A title that was reset is busy for the transcode's timeout, where nothing is written to its steps in
-- between (no worker reports, and its event was sent, so that it is not put back): a second re-encode of it
-- then leaves it alone and changes nothing.
pub reset_once :
    (p : Policy) (now later tr_id pack_id item a b : ℕ) (rows : List Row) {o : Option ℕ}
    → (reset p now tr_id pack_id item rows).1 ≡ claimed o
    → later ≤ now + timeout p transcode
    → let rows' = (reset p now tr_id pack_id item rows).0 in
      reset p later a b item rows' ≡ (rows', left (waiting transcode (some now)))
reset_once p now later tr_id pack_id item a b rows h l =
    let rows' = (reset p now tr_id pack_id item rows).0 in
    let first = (reset-chain p now tr_id pack_id item rows h).0 in
    let r = upserted (added_row now tr_id item transcode) (λ r. r) (find_row item transcode rows) in
    let r' = reencode_set now r in
    reset_left p later a b item rows' (waiting transcode (some now)) (
      rw first (
        busy-sent p now later r (Option.map (chain_step p later) (find_row item pack rows'))
          (has_key-step item transcode r' (find_row-has_key item transcode rows' r' first)) l))

busy-running :
    (p : Policy) (now item t : ℕ) (rows : List Row) (s : Step) (r : Row)
    → (s ≡ transcode) ⊎ (s ≡ pack)
    → find_row item s rows ≡ some r
    → r.status ≡ in_progress
    → r.modified ≡ some t
    → now ≤ t + timeout p s
    → busy
        (Option.map (chain_step p now) (find_row item transcode rows))
        (Option.map (chain_step p now) (find_row item pack rows))
      ≢ none
unfolding busy busy_step chain_step
busy-running p now item t rows s r c f st m l =
    ground (arith, has_key-step item s r (find_row-has_key item s rows r f))

-- A title whose transcode or package is in progress, its worker heard within the step's timeout, is
-- left alone.
pub reset-in_progress :
    (p : Policy) (now tr_id pack_id item t : ℕ) (rows : List Row) (s : Step) (r : Row)
    → (s ≡ transcode) ⊎ (s ≡ pack)
    → find_row item s rows ≡ some r
    → r.status ≡ in_progress
    → r.modified ≡ some t
    → now ≤ t + timeout p s
    → (why : Busy) × (reset p now tr_id pack_id item rows ≡ (rows, left why))
reset-in_progress p now tr_id pack_id item t rows s r c f st m l =
    elim (Option-cases (busy_now p now tr_id pack_id item rows)) [
      | inl e ↦ absurd (busy-running p now item t rows s r c f st m l e)
      | inr (why, e) ↦ (why, reset_left p now tr_id pack_id item rows why e)
    ]
