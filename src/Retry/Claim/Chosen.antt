-- ===== src/Retry/Claim/Chosen.antt =====
-- With ids that no two rows share, the ids of the rows chosen choose rows that pass the test alone.
use katalog_manager.Base.{
  ℕ, ◌≡◌, ◌⊎◌, inl, inr, refl, ◌∙◌, Bool, true, false, ◌||◌, some, List, [], ◌∷◌, arith, All,
  Bool-cases, ◌==◌,
}
use mathlib.Core.Option
use mathlib.Core.Path.{subst}
use katalog_manager.Processing.Vocab.{Step}
use katalog_manager.Processing.Table.{Row, find_row, has_key}
use katalog_manager.Processing.Table.Keys.{find_row-update_where, KeepsKeys}
use katalog_manager.Retry.Claim.{
  Catalog, among, batch, by_next_retry, is_due, claim_set, claim, claim_due,
}
use katalog_manager.Base.Choice.{choose, All-choose}
use katalog_manager.Retry.Claim.Once.{has_id}

abbrev pub HasUniqueIds : List Row → Type 0
HasUniqueIds [] = Unit
HasUniqueIds (r ∷ rs) = (has_id rs r.id ≡ false) × HasUniqueIds rs

pub All-zip {κ μ ν} :
    {P : Row → Type κ} {Q : Row → Type μ} {R : Row → Type ν} (rows : List Row)
    → ((r : Row) → P r → Q r → R r)
    → All P rows
    → All Q rows
    → All R rows
All-zip [] f p q = tt
All-zip (r ∷ rs) f p q = (f r p.0 q.0, All-zip rs f p.1 q.1)

pub All-pure {κ} : {P : Row → Type κ} (rows : List Row) → ((r : Row) → P r) → All P rows
All-pure [] f = tt
All-pure (r ∷ rs) f = (f r, All-pure rs f)

has_id-absent :
    (rows : List Row) (n : ℕ) → has_id rows n ≡ false → All (λ r. (r.id == n) ≡ false) rows
unfolding has_id
has_id-absent [] n h = tt
has_id-absent (r ∷ rs) n h = (ground arith, has_id-absent rs n (ground arith))

==_swap : (a b : ℕ) → (a == b) ≡ (b == a)
==_swap a b = ground arith

or_test :
    (a b c : Bool) → (a ≡ true → c ≡ true) → (b ≡ true → c ≡ true) → (a || b) ≡ true → c ≡ true
or_test true b c f g h = f refl
or_test false b c f g h = g h

module _ (test : Row → Bool) where
  -- A row with the id of one that passes the test passes it.
  abbrev SharesTest : List Row → Row → Type 0
  SharesTest rows q = All (λ r. (q.id == r.id) ≡ true → test r ≡ true) rows

  SharesTest-All :
      (rows : List Row) → HasUniqueIds rows → All (λ q. test q ≡ true → SharesTest rows q) rows
  SharesTest-All [] u = tt
  SharesTest-All (x ∷ xs) u =
      let absent = has_id-absent xs x.id u.0 in
      (
        λ h. (
          λ e. h,
          All-zip xs (λ r a _ e. absurd (let s = ==_swap x.id r.id in cc)) absent absent,
        ),
        All-zip xs (λ q a ih h. (λ e. absurd (cc), ih h)) absent (SharesTest-All xs u.1),
      )

  among_of_SharesTest :
      (rows chosen : List Row)
      → All (SharesTest rows) chosen
      → All (λ r. among chosen r ≡ true → test r ≡ true) rows
  among_of_SharesTest rows [] a = All-pure rows (λ r h. absurd (cc))
  among_of_SharesTest rows (q ∷ qs) a =
      All-zip rows (λ r here there h. or_test (q.id == r.id) (among qs r) (test r) here there h) a.0
        (among_of_SharesTest rows qs a.1)

  -- The rows chosen from a table, and so those that a claim sets, pass the test.
  pub among-choose :
      (before : Row → Row → Bool) (n : ℕ) (rows : List Row)
      → HasUniqueIds rows
      → All (λ r. among (choose before n test rows) r ≡ true → test r ≡ true) rows
  among-choose before n rows u =
      among_of_SharesTest rows (choose before n test rows)
        (All-choose (SharesTest rows) before n test rows (SharesTest-All rows u))

All-find_row {κ} :
    (P : Row → Type κ) (i : ℕ) (s : Step) (rows : List Row) (r : Row)
    → All P rows
    → find_row i s rows ≡ some r
    → P r
unfolding find_row
All-find_row P i s [] r a h = absurd (cc)
All-find_row P i s (q ∷ qs) r a h = elim (Bool-cases (has_key i s q)) [
  | inl e ↦ (let same : q ≡ r = ground arith in subst P same a.0)
  | inr e ↦ All-find_row P i s qs r a.1 (ground arith)
]

claim_set-KeepsKeys : (manual : Bool) (now : ℕ) → KeepsKeys (claim_set manual now)
unfolding claim_set
claim_set-KeepsKeys manual now r = (refl, refl)

-- A pass of the sweep leaves each step's row as it was, or claims it, and then it was due: failed,
-- its retry scheduled and its time come, of a step that an event triggers, of an item that is there,
-- whose original and file its worker can read.
pub claim_due_lem :
    (c : Catalog) (sources : Bool) (now : ℕ) (rows : List Row) (i : ℕ) (s : Step) (r : Row)
    → HasUniqueIds rows
    → find_row i s rows ≡ some r
    → let after = find_row i s (claim_due c sources now rows).0 in
      (after ≡ some r) ⊎ (is_due c sources now r ≡ true) × (after ≡ some (claim_set false now r))
unfolding claim_due claim
claim_due_lem c sources now rows i s r u f =
    let chosen = choose by_next_retry batch (is_due c sources now) rows in
    let law =
      find_row-update_where (among chosen) (claim_set false now) rows i s
        (claim_set-KeepsKeys false now) in
    let due =
      All-find_row (λ q. among chosen q ≡ true → is_due c sources now q ≡ true) i s rows r
        (among-choose (is_due c sources now) by_next_retry batch rows u) f in
    elim (Bool-cases (among chosen r)) [
      | inl e ↦ inr (due e, law ∙ rw (f, Option.map, e))
      | inr e ↦ inl (law ∙ rw (f, Option.map, e))
    ]
