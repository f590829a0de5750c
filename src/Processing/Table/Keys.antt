-- ===== src/Processing/Table/Keys.antt =====
-- The statements as operations on a table of unique keys.
use katalog_manager.Base.{
  ℕ, ◌≡◌, refl, Bool, true, false, none, some, List, [], ◌∷◌, arith, ◌∙◌, Bool-cases, inl, inr,
  if◌then◌else◌, count,
}
use mathlib.Core.Option
use mathlib.Core.Path.{subst}
use katalog_manager.Processing.Vocab.{Step, same_step}
use katalog_manager.Processing.Table.{
  Row, has_key, same_key, upserted, upsert_rows, update_where, find_row,
}

pub same_step_refl : (s : Step) → same_step s s ≡ true
unfolding same_step
same_step_refl Step.scan = refl
same_step_refl _ = refl

pub same_step-eq : (s t : Step) → same_step s t ≡ true → s ≡ t
unfolding same_step
same_step-eq s t h = ground arith

pub same_key_refl : (i : ℕ) (s : Step) → same_key i s i s ≡ true
unfolding same_key
same_key_refl i s = ground (arith, same_step_refl s)

pub same_key-eq : (i j : ℕ) (s t : Step) → same_key i s j t ≡ true → (i ≡ j) × (s ≡ t)
unfolding same_key
same_key-eq i j s t h = ground (arith, same_step-eq t s)

-- Two keys that one row has are the same.
has_key-same :
    (i j : ℕ) (s t : Step) (r : Row) → has_key i s r ≡ true → has_key j t r ≡ same_key j t i s
unfolding has_key
has_key-same i j s t r h = let (p, q) = same_key-eq i r.item s r.step h in rw (p, q)

has_key_of_same :
    (i j : ℕ) (s t : Step) (r : Row) → same_key i s j t ≡ true → has_key j t r ≡ has_key i s r
has_key_of_same i j s t r h = let (p, q) = same_key-eq i j s t h in rw (p, q)

-- What an upsert does to the table: the row of its key is the updated one, or the new one where
-- there was none, and every other key's row is as it was.
pub find_row-upsert_rows :
    (item : ℕ) (step : Step) (new : Row) (update : Row → Row) (rows : List Row) (i : ℕ) (s : Step)
    → has_key item step new ≡ true
    → ((r : Row) → has_key item step r ≡ true → has_key item step (update r) ≡ true)
    → find_row i s (upsert_rows item step new update rows) ≡ (
        if same_key i s item step
        then some (upserted new update (find_row item step rows))
        else find_row i s rows)
unfolding find_row upsert_rows upserted
find_row-upsert_rows item step new update [] i s hn hu = rw (has_key-same item i step s new hn)
find_row-upsert_rows item step new update (r ∷ rs) i s hn hu =
    elim (Bool-cases (has_key item step r)) [
      | inl e ↦
          rw (e, has_key-same item i step s r e, has_key-same item i step s (update r) (hu r e))
            (ground arith)
      | inr e ↦
          rw (e, find_row-upsert_rows item step new update rs i s hn hu)
            (ground (arith, has_key_of_same i item s step r))
    ]

-- No two rows of one item's step.
abbrev pub HasUniqueKeys : List Row → Type 0
HasUniqueKeys [] = Unit
HasUniqueKeys (r ∷ rs) = (find_row r.item r.step rs ≡ none) × HasUniqueKeys rs

-- An update that changes no key, and the row that it makes of a row.
abbrev pub KeepsKeys : (Row → Row) → Type 0
KeepsKeys f = (r : Row) → (((f r).item ≡ r.item) × ((f r).step ≡ r.step))

pub KeepsKeys-has_key :
    (f : Row → Row) (i : ℕ) (s : Step) (r : Row) → KeepsKeys f → has_key i s (f r) ≡ has_key i s r
unfolding has_key
KeepsKeys-has_key f i s r k = let (p, q) = k r in rw (p, q)

find_row-nil : (i : ℕ) (s : Step) → find_row i s [] ≡ none
unfolding find_row
find_row-nil i s = refl

pub has_key-new : (i : ℕ) (s : Step) (r : Row) → r.item ≡ i → r.step ≡ s → has_key i s r ≡ true
unfolding has_key
has_key-new i s r p q = rw (p, q) (same_key_refl i s)

same_step_sym : (s t : Step) → same_step s t ≡ same_step t s
unfolding same_step
same_step_sym s t = ground arith

not-has_key :
    (i : ℕ) (s : Step) (r : Row) → has_key i s r ≡ false → same_key r.item r.step i s ≡ false
unfolding has_key same_key
not-has_key i s r h = ground (arith, same_step_sym s r.step)

pub HasUniqueKeys-upsert_rows :
    (item : ℕ) (step : Step) (new : Row) (update : Row → Row) (rows : List Row)
    → new.item ≡ item
    → new.step ≡ step
    → KeepsKeys update
    → HasUniqueKeys rows
    → HasUniqueKeys (upsert_rows item step new update rows)
unfolding upsert_rows
HasUniqueKeys-upsert_rows item step new update [] hi hs k u = (find_row-nil new.item new.step, tt)
HasUniqueKeys-upsert_rows item step new update (r ∷ rs) hi hs k u =
    elim (Bool-cases (has_key item step r)) [
      | inl e ↦ rw e (rw ((k r).0, (k r).1) u.0, u.1)
      | inr e ↦
          let other =
            find_row-upsert_rows item step new update rs r.item r.step
              (has_key-new item step new hi hs)
              (λ q h. KeepsKeys-has_key update item step q k ∙ h) in
          rw e (
            other ∙ rw (not-has_key item step r e) u.0,
            HasUniqueKeys-upsert_rows item step new update rs hi hs k u.1,
          )
    ]

-- UPDATE sets the rows that pass the test, where the set changes no key and the keys are unique, and
-- leaves the others.
pub find_row-update_where :
    (test : Row → Bool) (set : Row → Row) (rows : List Row) (i : ℕ) (s : Step)
    → KeepsKeys set
    → find_row i s (update_where test set rows).0
      ≡ Option.map (λ r. if test r then set r else r) (find_row i s rows)
unfolding find_row update_where
find_row-update_where test set [] i s k = refl
find_row-update_where test set (r ∷ rs) i s k =
    ground (arith, find_row-update_where test set rs i s k, KeepsKeys-has_key set i s r k)

pub update_where-count :
    (test : Row → Bool) (set : Row → Row) (rows : List Row)
    → (update_where test set rows).1 ≡ count test rows
unfolding update_where count
update_where-count test set [] = refl
update_where-count test set (r ∷ rs) = ground (arith, update_where-count test set rs)

pub HasUniqueKeys-update_where :
    (test : Row → Bool) (set : Row → Row) (rows : List Row)
    → KeepsKeys set
    → HasUniqueKeys rows
    → HasUniqueKeys (update_where test set rows).0
unfolding update_where
HasUniqueKeys-update_where test set [] k u = u
HasUniqueKeys-update_where test set (r ∷ rs) k u =
    let rest = find_row-update_where test set rs r.item r.step k ∙ rw u.0 in
    let unique = HasUniqueKeys-update_where test set rs k u.1 in
    elim (Bool-cases (test r)) [
      | inl e ↦ rw e (rw ((k r).0, (k r).1) rest, unique)
      | inr e ↦ rw e (rest, unique)
    ]

-- The row found has the key it was looked for by.
pub find_row-has_key :
    (i : ℕ) (s : Step) (rows : List Row) (r : Row)
    → find_row i s rows ≡ some r
    → has_key i s r ≡ true
unfolding find_row
find_row-has_key i s [] r h = absurd (cc)
find_row-has_key i s (q ∷ qs) r h = elim (Bool-cases (has_key i s q)) [
  | inl e ↦ (let same : q ≡ r = ground arith in subst (λ x. has_key i s x ≡ true) same e)
  | inr e ↦ find_row-has_key i s qs r (ground arith)
]
