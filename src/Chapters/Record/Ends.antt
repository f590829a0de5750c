-- ===== src/Chapters/Record/Ends.antt =====
-- internal/chapters/chapters.go: a report ends the claim it names, and only that one.
use katalog_manager.Base.{
  ℕ, ◌≡◌, refl, ap, inl, inr, Bool, true, false, not, ◌&&◌, Option, none, some, List, Bool-cases,
  if◌then◌else◌, arith,
}
use katalog_manager.Base.Text.{Text, trim_space}
use katalog_manager.Chapters.Title.{Chapter, has_chapters, same}
use katalog_manager.Chapters.Read.{Read, Reader, by_reader, Replacer, Kept, end_claim}
use katalog_manager.Chapters.Take.{
  RecordRead, How, take_write, take_keep, take_none, take_stay, take_hold, take, put, replace,
  set_rows_source,
}
use katalog_manager.Chapters.Report.{Report, Outcome, state, Files, refused, release, leaves}
use katalog_manager.Chapters.Record.{
  record_kept, record_taken, record_report, call_of, transient_failure, release_row, ItemType,
  movie, episode, other_type, answers, or_new, answer_of,
}
use katalog_manager.Chapters.Record.Claims.{owns, is_stale}
use katalog_manager.Chapters.Record.Cases.{record_kept-cases, IsRefused}
use katalog_manager.Chapters.Record.Updates.{Call, only, hold, failed, keep, is_counted}
use katalog_manager.Chapters.Record.Settle.{settle, settle_as, keep_found, put_note}

-- The claim of the title is gone when it was the report's, and stands when it was not.
pub record Ends (own : Bool) (k after : Read) : Type 0 where
  pub claimed_at : after.claimed_at ≡ (if own then none else k.claimed_at)
  pub claimed_by : after.claimed_by ≡ (if own then none else k.claimed_by)
  pub claim_token : after.claim_token ≡ (if own then none else k.claim_token)

module _ (c : Call) where
  only-Ends : (why : Text) (k : Read) → Ends c.own k (only c why k)
  unfolding only end_claim
  only-Ends why k = record { claimed_at = refl; claimed_by = refl; claim_token = refl }

  hold-Ends : (why : Text) (recorded : Bool) (k : Read) → Ends c.own k (hold c why recorded k)
  unfolding hold end_claim
  hold-Ends why recorded k = record { claimed_at = refl; claimed_by = refl; claim_token = refl }

  release-Ends : (k : Read) → Ends c.own k (release_row c k)
  unfolding end_claim
  release-Ends k = record { claimed_at = refl; claimed_by = refl; claim_token = refl }

  transient-Ends : (why : Text) (k : Read) → Ends c.own k (transient_failure c why k)
  unfolding transient_failure end_claim
  transient-Ends why k = record { claimed_at = refl; claimed_by = refl; claim_token = refl }

  failed-Ends : (why : Text) (k : Read) → Ends c.own k (failed c why k)
  unfolding failed end_claim
  failed-Ends why k = elim (Bool-cases (is_counted c.now k)) [
    | inl e ↦ rw e (record { claimed_at = refl; claimed_by = refl; claim_token = refl })
    | inr e ↦ rw e (record { claimed_at = refl; claimed_by = refl; claim_token = refl })
  ]

-- The claim is the same in two rows.
record SameClaim (k after : Read) : Type 0 where
  claimed_at : after.claimed_at ≡ k.claimed_at
  claimed_by : after.claimed_by ≡ k.claimed_by
  claim_token : after.claim_token ≡ k.claim_token

abbrev same_claim : {k : Read} → SameClaim k k
same_claim = record { claimed_at = refl; claimed_by = refl; claim_token = refl }

put-SameClaim :
    (got : List Chapter) (rows source : Option ℕ) (by : Replacer) (now : ℕ) (k : Kept)
    → SameClaim k.row (put got rows source by now k).row
unfolding put replace
put-SameClaim got rows source by now k =
    elim (Bool-cases (has_chapters got && same k.chapters got)) [
      | inl e ↦ rw e (record { claimed_at = refl; claimed_by = refl; claim_token = refl })
      | inr e ↦ rw e (elim (Bool-cases (has_chapters k.chapters)) [
        | inl h ↦ rw h (record { claimed_at = refl; claimed_by = refl; claim_token = refl })
        | inr h ↦ rw h (record { claimed_at = refl; claimed_by = refl; claim_token = refl })
      ])
    ]

module _ (c : Call) (got : List Chapter) (from : Reader) (confirmed : Bool) (read_path probe : Text)
    (secs : Option ℕ) (recorded : Bool) (k : Kept) where
  keep_found-Ends :
      (note : Text) (after : Kept)
      → SameClaim k.row after.row
      → Ends c.own k.row
          (keep_found c got from confirmed read_path probe secs note recorded after).row
  unfolding keep_found keep end_claim
  keep_found-Ends note after s = record {
    claimed_at = ap (λ x. if c.own then none else x) s.claimed_at;
    claimed_by = ap (λ x. if c.own then none else x) s.claimed_by;
    claim_token = ap (λ x. if c.own then none else x) s.claim_token;
  }

  put_found-Ends :
      (note : Text)
      → Ends c.own k.row
          (keep_found c got from confirmed read_path probe secs note recorded
            (put got k.row.rows_source c.source (by_reader from) c.now k)).row
  put_found-Ends note =
      keep_found-Ends note (put got k.row.rows_source c.source (by_reader from) c.now k)
        (put-SameClaim got k.row.rows_source c.source (by_reader from) c.now k)

  settle_as-Ends :
      (note : Text) (how : How) (why : Text)
      → Ends c.own k.row
          (settle_as c (how, why) got from confirmed read_path probe secs note recorded k).row
  unfolding settle_as hold only end_claim
  settle_as-Ends note take_write why = put_found-Ends (put_note note k)
  settle_as-Ends note take_keep why =
      keep_found-Ends _ (set_rows_source c.source k)
        (record { claimed_at = refl; claimed_by = refl; claim_token = refl })
  settle_as-Ends note take_none why = put_found-Ends (put_note note k)
  settle_as-Ends note take_stay why = record {
    claimed_at = refl;
    claimed_by = refl;
    claim_token = refl;
  }
  settle_as-Ends note take_hold why = record {
    claimed_at = refl;
    claimed_by = refl;
    claim_token = refl;
  }

  settle-Ends :
      (note : Text)
      → Ends c.own k.row (settle c got from confirmed read_path probe secs note recorded k).row
  unfolding settle
  settle-Ends note =
      let t = take k.chapters got k.row.rows_source c.source in
      elim (Bool-cases (not (has_chapters got) && not confirmed && has_chapters k.chapters)) [
        | inl e ↦ rw e (keep_found-Ends note k same_claim)
        | inr e ↦ rw e (settle_as-Ends note t.0 t.1)
      ]

kept_claim : (own : Bool) (k : Read) → own ≡ false → Ends own k k
kept_claim own k e = rw e (record { claimed_at = refl; claimed_by = refl; claim_token = refl })

stale-not_owns : (token : Text) (k : Read) → is_stale token k ≡ true → owns token k ≡ false
unfolding is_stale
stale-not_owns token k h = ground arith

record_kept-Ends :
    (r : Report) (source : Option ℕ × Option ℕ) (rec : Option RecordRead) (said : Option Bool)
    (now : ℕ) (k : Kept)
    → ¬ IsRefused (state r)
    → Ends (owns (trim_space r.token) k.row) k.row (record_kept r source rec said now k).row
unfolding call_of
record_kept-Ends r source rec said now k taken =
    let token = trim_space r.token in
    let c = call_of r source now k.row in
    let P = λ (after : Kept). Ends c.own k.row after.row in
    record_kept-cases P r source rec said now k
      (λ stale. kept_claim c.own k.row (stale-not_owns token k.row stale))
      (λ live. record {
        on_none =
            λ passed. elim passed [ inl h ↦ kept_claim c.own k.row h | inr h ↦ absurd (taken h) ];
        on_only = λ why. only-Ends c why k.row;
        on_release = λ own. release-Ends c k.row;
        on_transient = λ why idle. transient-Ends c why k.row;
        on_failed = λ why. failed-Ends c why k.row;
        on_hold = λ why recorded. hold-Ends c why recorded k.row;
        on_settle = λ got from confirmed path probe secs note recorded.
            settle-Ends c got from confirmed path probe secs recorded k note;
      })

record_taken-Ends :
    (record_of : ℕ → RecordRead) (says_of : ℕ → Option Bool) (files : Files) (r : Report) (now : ℕ)
    (k : Kept)
    → ¬ IsRefused (state r)
    → Ends
        (owns (trim_space r.token) k.row)
        k.row
        (record_taken record_of says_of files r now k).row
unfolding record_taken
record_taken-Ends record_of says_of files r now k taken = record_kept-Ends r _ _ _ now k taken

answer_of-answers :
    (o : Outcome) (t : Option ItemType) (k after : Kept)
    → answer_of o t k ≡ answers after
    → (¬ IsRefused o) × (after ≡ k)
unfolding answer_of
answer_of-answers (refused why) t k after h = cc
answer_of-answers release none k after h = cc
answer_of-answers release (some movie) k after h = ground arith
answer_of-answers release (some episode) k after h = ground arith
answer_of-answers release (some other_type) k after h = cc
answer_of-answers (leaves s) none k after h = cc
answer_of-answers (leaves s) (some movie) k after h = ground arith
answer_of-answers (leaves s) (some episode) k after h = ground arith
answer_of-answers (leaves s) (some other_type) k after h = cc

-- When a report is answered with the title's read, the claim that the title was under is gone where the
-- report's token names it, and as it was where it does not.
pub record_report-Ends :
    (record_of : ℕ → RecordRead) (says_of : ℕ → Option Bool) (files : Files) (t : Option ItemType)
    (r : Report) (now : ℕ) (row : Option Read) (chs : List Chapter) (ids : ℕ → ℕ) (after : Kept)
    → record_report record_of says_of files t r now row chs ids ≡ answers after
    → Ends (owns (trim_space r.token) (or_new now row)) (or_new now row) after.row
unfolding record_report
record_report-Ends record_of says_of files t r now row chs ids after h =
    let k : Kept = record { row = or_new now row; chapters = chs; ids = ids } in
    let taken = record_taken record_of says_of files r now k in
    let (not_refused, same) = answer_of-answers (state r) t taken after h in
    rw same (record_taken-Ends record_of says_of files r now k not_refused)
