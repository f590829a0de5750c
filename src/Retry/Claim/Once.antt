-- ===== src/Retry/Claim/Once.antt =====
-- internal/retry/retry.go: which steps a claim takes after another claim and its dispatch.
use katalog_manager.Base.{
  ℕ, ◌+◌, ◌≤◌, ◌≡◌, refl, Bool, true, false, Option, none, List, [], ◌∷◌, arith, any, keep, map,
  All, Bool-cases, ◌⊎◌, if◌then◌else◌, inl, inr, ==_iff, ◌==◌,
}
use katalog_manager.Processing.Vocab.{Step}
use katalog_manager.Processing.Policy.{Policy, timeout}
use katalog_manager.Processing.Table.{Row, update_where}
use katalog_manager.Retry.Claim.{
  Catalog, Claimed, claim_set, is_due, is_retryable, is_idle, is_stale, among, claim, claim_due,
  claimed_of, batch, by_next_retry,
}
use katalog_manager.Base.Text.{Text}
use katalog_manager.Retry.Dispatch.{
  Message, as_retry, dispatch, put_back, put_back_set, is_back, group_from, settle_all,
  nothing_sent,
}
use katalog_manager.Base.Choice.{choose, All-choose}

-- A step just claimed is not due, and not failed for an admin to retry, however much later.
pub claim_set-not_due :
    (c : Catalog) (sources manual : Bool) (only : Option Step) (now later : ℕ) (r : Row)
    → (is_due c sources later (claim_set manual now r) ≡ false)
      × (is_retryable c sources only (claim_set manual now r) ≡ false)
unfolding claim_set is_due is_retryable
claim_set-not_due c sources manual only now later r = ground arith

-- Within its step's timeout a step just claimed is not silent, neither for the reaper nor for an
-- admin.
pub claim_set-not_stale :
    (c : Catalog) (p : Policy) (manual : Bool) (now later : ℕ) (r : Row)
    → later ≤ now + timeout p r.step
    → (is_stale c p later (claim_set manual now r) ≡ false)
      × (is_idle p later (claim_set manual now r) ≡ false)
unfolding claim_set is_stale is_idle
claim_set-not_stale c p manual now later r h = ground arith

unfoldable pub has_id : List Row → ℕ → Bool
has_id rows n = any (λ q. q.id == n) rows

has_id_ne :
    (chosen : List Row) (r : Row) (n : ℕ)
    → among chosen r ≡ true
    → has_id chosen n ≡ false
    → (r.id == n) ≡ false
unfolding has_id
has_id_ne chosen r n h k = elim (Bool-cases (r.id == n)) [
  | inl e ↦ absurd (let same : r.id ≡ n = (==_iff r.id n).0 e in let there = rw same at h in cc)
  | inr e ↦ e
]

has_id-claimed :
    (c : Catalog) (chosen rows : List Row) (n : ℕ)
    → has_id chosen n ≡ false
    → any (λ f. f.id == n) (map (claimed_of c) (keep (among chosen) rows)) ≡ false
unfolding keep has_id
has_id-claimed c chosen [] n h = refl
has_id-claimed c chosen (r ∷ rs) n h = elim (Bool-cases (among chosen r)) [
  | inl e ↦ rw e (ground (arith, has_id-claimed c chosen rs n h, has_id_ne chosen r n))
  | inr e ↦ rw e (has_id-claimed c chosen rs n h)
]

-- The rows that a claim set are not due afterwards.
due_untouched :
    (c : Catalog) (sources manual : Bool) (now later : ℕ) (chosen rows : List Row)
    → All
        (λ r. is_due c sources later r ≡ true → has_id chosen r.id ≡ false)
        (update_where (among chosen) (claim_set manual now) rows).0
unfolding update_where
due_untouched c sources manual now later chosen [] = tt
due_untouched c sources manual now later chosen (r ∷ rs) =
    let rest = due_untouched c sources manual now later chosen rs in
    elim (Bool-cases (among chosen r)) [
      | inl e ↦
          let gone = (claim_set-not_due c sources manual none now later r).0 in
          rw e (λ h. absurd (cc), rest)
      | inr e ↦ rw e (λ h. unfold has_id in e, rest)
    ]

-- A claim's rows are those chosen.
claimed-All :
    (c : Catalog) (chosen rows : List Row) (P : ℕ → Type 0)
    → ((n : ℕ) → has_id chosen n ≡ true → P n)
    → All (λ d. P d.id) (map (claimed_of c) (keep (among chosen) rows))
unfolding keep has_id
claimed-All c chosen [] P h = tt
claimed-All c chosen (r ∷ rs) P h = elim (Bool-cases (among chosen r)) [
  | inl e ↦ rw e (h r.id e, claimed-All c chosen rs P h)
  | inr e ↦ rw e (claimed-All c chosen rs P h)
]

-- A step that was not claimed, or was put back.
abbrev pub IsOpen : List Row → List Claimed → ℕ → Type 0
IsOpen chosen back n = (has_id chosen n ≡ false) ⊎ (any (λ d. d.id == n) back ≡ true)

put_back_due :
    (c : Catalog) (sources : Bool) (now later again : ℕ) (says : Text) (chosen : List Row)
    (back : List Claimed) (rows : List Row)
    → All (λ r. is_due c sources later r ≡ true → has_id chosen r.id ≡ false) rows
    → All
        (λ r. is_due c sources later r ≡ true → IsOpen chosen back r.id)
        (update_where (is_back back) (put_back_set now says again) rows).0
unfolding update_where
put_back_due c sources now later again says chosen back [] a = tt
put_back_due c sources now later again says chosen back (r ∷ rs) a =
    let rest = put_back_due c sources now later again says chosen back rs a.1 in
    elim (Bool-cases (is_back back r)) [
      | inl e ↦ rw e (λ h. inr (unfold put_back_set in ground (arith, e)), rest)
      | inr e ↦ rw e (λ h. inl (a.0 h), rest)
    ]

put_back_none :
    (c : Catalog) (sources : Bool) (later : ℕ) (chosen rows : List Row)
    → All (λ r. is_due c sources later r ≡ true → has_id chosen r.id ≡ false) rows
    → All (λ r. is_due c sources later r ≡ true → IsOpen chosen [] r.id) rows
put_back_none c sources later chosen [] a = tt
put_back_none c sources later chosen (r ∷ rs) a =
    (λ h. inl (a.0 h), put_back_none c sources later chosen rs a.1)

put_back-due :
    (c : Catalog) (sources : Bool) (now later again : ℕ) (says : Text) (chosen : List Row)
    (back : List Claimed) (rows : List Row)
    → All (λ r. is_due c sources later r ≡ true → has_id chosen r.id ≡ false) rows
    → All
        (λ r. is_due c sources later r ≡ true → IsOpen chosen back r.id)
        (put_back now says again back rows)
unfolding put_back
put_back-due c sources now later again says chosen [] rows a =
    put_back_none c sources later chosen rows a
put_back-due c sources now later again says chosen (b ∷ bs) rows a =
    put_back_due c sources now later again says chosen (b ∷ bs) rows a

dispatch-due :
    (c : Catalog) (sources : Bool) (now later : ℕ) (chosen : List Row)
    (publish : List Message → List (Option Text)) (says : Option Text → Text) (automatic : Bool)
    (back_off : ℕ) (cs : List Claimed) (rows : List Row)
    → All (λ r. is_due c sources later r ≡ true → has_id chosen r.id ≡ false) rows
    → let (rows', o) = dispatch publish says as_retry now automatic back_off cs rows in
      All (λ r. is_due c sources later r ≡ true → IsOpen chosen o.not_sent r.id) rows'
unfolding dispatch
dispatch-due c sources now later chosen publish says automatic back_off [] rows a =
    put_back_none c sources later chosen rows a
dispatch-due c sources now later chosen publish says automatic back_off (d ∷ ds) rows a =
    let msgs = group_from as_retry [] (d ∷ ds) in
    let o = settle_all [] nothing_sent msgs (publish msgs) in
    put_back-due c sources now later (if automatic then back_off else 0) (says o.first) chosen
      o.not_sent rows a

unclaimed :
    (c : Catalog) (chosen rows : List Row) (back : List Claimed) (n : ℕ)
    → IsOpen chosen back n
    → (any (λ f. f.id == n) (map (claimed_of c) (keep (among chosen) rows)) ≡ false)
      ⊎ (any (λ f. f.id == n) back ≡ true)
unclaimed c chosen rows back n (inl h) = inl (has_id-claimed c chosen rows n h)
unclaimed c chosen rows back n (inr h) = inr h

has_id-open :
    (first second : List Row) (back : List Claimed) (n : ℕ)
    → All (λ q. IsOpen first back q.id) second
    → has_id second n ≡ true
    → IsOpen first back n
unfolding has_id
has_id-open first [] back n a h = absurd (cc)
has_id-open first (q ∷ qs) back n a h = elim (Bool-cases (q.id == n)) [
  | inl e ↦ rw (← (==_iff q.id n).0 e) a.0
  | inr e ↦ has_id-open first qs back n a.1 (ground arith)
]

-- A pass claims the steps that are due and sends their events, and puts back those whose event could not
-- be sent. Where nothing else is written in between, the next claim of due steps, however much later,
-- takes no step that the pass claimed, but for those that it put back.
pub claim_due_once :
    (c : Catalog) (sources : Bool) (now later : ℕ) (rows : List Row)
    (publish : List Message → List (Option Text)) (says : Option Text → Text) (automatic : Bool)
    (back_off : ℕ)
    → let (rows', first) = claim_due c sources now rows in
      let (rows'', o) = dispatch publish says as_retry now automatic back_off first rows' in
      All
        (λ d. (any (λ f. f.id == d.id) first ≡ false) ⊎ (any (λ f. f.id == d.id) o.not_sent ≡ true))
        (claim_due c sources later rows'').1
unfolding claim_due claim
claim_due_once c sources now later rows publish says automatic back_off =
    let chosen = choose by_next_retry batch (is_due c sources now) rows in
    let rows' = (update_where (among chosen) (claim_set false now) rows).0 in
    let first = map (claimed_of c) (keep (among chosen) rows) in
    let (rows'', o) = dispatch publish says as_retry now automatic back_off first rows' in
    let again = choose by_next_retry batch (is_due c sources later) rows'' in
    let open_rows =
      dispatch-due c sources now later chosen publish says automatic back_off first rows'
        (due_untouched c sources false now later chosen rows) in
    let others =
      All-choose (λ q. IsOpen chosen o.not_sent q.id) by_next_retry batch (is_due c sources later)
        rows'' open_rows in
    claimed-All c again rows''
      (λ n. (any (λ f. f.id == n) first ≡ false) ⊎ (any (λ f. f.id == n) o.not_sent ≡ true))
      (λ n h. unclaimed c chosen rows o.not_sent n (has_id-open chosen again o.not_sent n others h))
