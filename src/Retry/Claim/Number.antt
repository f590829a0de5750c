-- ===== src/Retry/Claim/Number.antt =====
-- How many steps a claim takes, and how many are left.
use katalog_manager.Base.{
  ℕ, ◌+◌, ◌≤◌, ◌≡◌, refl, ap, Bool, true, false, Option, none, is_some, List, [], ◌∷◌, arith, map,
  keep, count, min, length, All, Bool-cases, inl, inr, ◌==◌, ==_iff, ==_refl, ◌∙◌, sym,
}
use katalog_manager.Base.Choice.{choose, All-choose}
use katalog_manager.Base.Choice.Counts.{
  length-choose, count-choose-le, length-keep, AreUnique-of, length-le-count,
}
use katalog_manager.Processing.Vocab.{Step}
use katalog_manager.Processing.Table.{Row, update_where}
use katalog_manager.Retry.Claim.{
  Catalog, claim_set, is_retryable, among, claim, claim_failed, claim_due, is_due, by_next_retry,
  claimed_of, batch, by_id,
}
use katalog_manager.Retry.Claim.Once.{claim_set-not_due, has_id}
use katalog_manager.Retry.Claim.Chosen.{HasUniqueIds, among-choose, All-zip}

length-map : {A B : Type 0} (f : A → B) (xs : List A) → length (map f xs) ≡ length xs
length-map f [] = refl
length-map f (x ∷ xs) = omega (arith, length-map f xs)

-- An update of rows that pass a test to ones that don't.
count-update_where :
    (test chosen : Row → Bool) (set : Row → Row) (rows : List Row)
    → ((r : Row) → test (set r) ≡ false)
    → All (λ r. chosen r ≡ true → test r ≡ true) rows
    → count test (update_where chosen set rows).0 + count chosen rows ≡ count test rows
unfolding count update_where
count-update_where test chosen set [] passes a = refl
count-update_where test chosen set (r ∷ rs) passes (h, a) = elim (Bool-cases (chosen r)) [
  | inl e ↦
      let yes = h e in
      rw (e, passes r, yes) (omega (arith, count-update_where test chosen set rs passes a))
  | inr e ↦ rw e (omega (arith, count-update_where test chosen set rs passes a))
]

has_id-count : (rows : List Row) (n : ℕ) → has_id rows n ≡ false → count (λ r. r.id == n) rows ≡ 0
unfolding has_id count
has_id-count [] n h = refl
has_id-count (r ∷ rs) n h = ground (arith, has_id-count rs n (ground arith))

count-id-le : (rows : List Row) → HasUniqueIds rows → (n : ℕ) → count (λ r. r.id == n) rows ≤ 1
unfolding count
count-id-le [] u n = omega arith
count-id-le (r ∷ rs) (once, u) n = elim (Bool-cases (r.id == n)) [
  | inl e ↦
      let none_left = has_id-count rs n (ap (has_id rs) (sym ((==_iff r.id n).0 e)) ∙ once) in
      rw e (omega arith)
  | inr e ↦ rw e (omega (arith, count-id-le rs u n))
]

present : (rows : List Row) → All (λ q. 1 ≤ count (λ r. q.id == r.id) rows) rows
unfolding count
present [] = tt
present (r ∷ rs) = (
  ground (arith, ==_refl r.id),
  All-zip rs (λ q p p'. omega (arith, p)) (present rs) (present rs),
)

-- What a claim takes of the rows that pass its test, where it leaves those it takes out of a wider one:
-- every one of them, up to the batch, and so many fewer pass the wider test.
pub length-claim :
    (c : Catalog) (manual : Bool) (now : ℕ) (before : Row → Row → Bool) (test wider : Row → Bool)
    (rows : List Row)
    → HasUniqueIds rows
    → ((r : Row) → wider (claim_set manual now r) ≡ false)
    → ((r : Row) → test r ≡ true → wider r ≡ true)
    → let (rows', claimed) = claim c manual now (choose before batch test rows) rows in
      (count wider rows' + length claimed ≡ count wider rows)
      × (min batch (count test rows) ≤ length claimed)
unfolding claim
length-claim c manual now before test wider rows u passes narrow =
    let chosen = choose before batch test rows in
    let taken = keep (among chosen) rows in
    let tested = among-choose test before batch rows u in
    let left =
      count-update_where wider (among chosen) (claim_set manual now) rows passes
        (All-zip rows (λ r f _ a. narrow r (f a)) tested tested) in
    let unique =
      AreUnique-of {0} (λ (r : Row). r.id) chosen
        (λ n.
          omega (
            arith,
            count-choose-le before batch test rows (λ r. r.id == n),
            count-id-le rows u n,
          )) in
    let all_there =
      length-le-count {0} (λ (r : Row). r.id) chosen rows unique
        (All-choose (λ q. 1 ≤ count (λ r. q.id == r.id) rows) before batch test rows
          (All-zip rows (λ q p p' h. p) (present rows) (present rows))) in
    omega (
      arith,
      left,
      all_there,
      length-map (claimed_of c) taken,
      length-keep (among chosen) rows,
      length-choose before batch test rows,
    )

-- What RetryFailed claims: every step that it may retry, up to the batch; and no more than these are
-- left of them.
pub length-claim_failed :
    (c : Catalog) (sources : Bool) (only : Option Step) (now : ℕ) (rows : List Row)
    → HasUniqueIds rows
    → let test = is_retryable c sources only in
      let (rows', claimed) = claim_failed c sources only now rows in
      (count test rows' + length claimed ≡ count test rows)
      × (min batch (count test rows) ≤ length claimed)
unfolding claim_failed
length-claim_failed c sources only now rows u =
    let test = is_retryable c sources only in
    length-claim c true now by_id test test rows u
      (λ r. (claim_set-not_due c sources true only now now r).1) (λ r h. h)

pub is_scheduled : Row → Bool
is_scheduled r = is_some r.next_retry

due-scheduled :
    (c : Catalog) (sources : Bool) (now : ℕ) (r : Row)
    → is_due c sources now r ≡ true
    → is_scheduled r ≡ true
unfolding is_due is_scheduled
due-scheduled c sources now r h = ground arith

-- What the sweep claims: every step that is due, up to the batch, of those that are scheduled.
pub length-claim_due :
    (c : Catalog) (sources : Bool) (now : ℕ) (rows : List Row)
    → HasUniqueIds rows
    → let due = is_due c sources now in
      let (rows', claimed) = claim_due c sources now rows in
      (count is_scheduled rows' + length claimed ≡ count is_scheduled rows)
      × (count due rows' + length claimed ≡ count due rows)
      × (min batch (count due rows) ≤ length claimed)
unfolding claim_due
length-claim_due c sources now rows u =
    let due = is_due c sources now in
    let (scheduled, enough) =
      length-claim c false now by_next_retry due is_scheduled rows u
        (λ r. unfold is_scheduled in unfold claim_set in refl) (due-scheduled c sources now) in
    let (left, enough') =
      length-claim c false now by_next_retry due due rows u
        (λ r. (claim_set-not_due c sources false none now now r).0) (λ r h. h) in
    (scheduled, left, enough)
