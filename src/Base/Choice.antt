-- ===== src/Base/Choice.antt =====
-- SQL's choice of rows: those that pass a test, in an order, and the first of them (WHERE, ORDER BY
-- and LIMIT).
pub mod Counts
use katalog_manager.Base.{
  ℕ, zero, suc, ◌≤◌, ◌≡◌, Bool, true, List, [], ◌∷◌, take, keep, length, All, length-take-le,
  Bool-cases, inl, inr, if◌then◌else◌,
}

module _ {ℓ} {A : Type ℓ} where
  unfoldable pub insert_by : (A → A → Bool) → A → List A → List A
  insert_by before r [] = r ∷ []
  insert_by before r (q ∷ qs) =
      let rest = insert_by before r qs in if before q r then q ∷ rest else r ∷ q ∷ qs

  unfoldable pub sort_by : (A → A → Bool) → List A → List A
  unfolding insert_by
  sort_by before [] = []
  sort_by before (r ∷ rs) = insert_by before r (sort_by before rs)

  unfoldable pub choose : (A → A → Bool) → ℕ → (A → Bool) → List A → List A
  unfolding sort_by
  choose before n test rows = take n (sort_by before (keep test rows))

module _ {ℓ κ} {A : Type ℓ} (P : A → Type κ) where
  All-insert_by :
      (before : A → A → Bool) (r : A) (rows : List A)
      → P r
      → All P rows
      → All P (insert_by before r rows)
  unfolding insert_by
  All-insert_by before r [] h a = (h, tt)
  All-insert_by before r (q ∷ qs) h a = elim (Bool-cases (before q r)) [
    | inl e ↦ rw e (a.0, All-insert_by before r qs h a.1)
    | inr e ↦ rw e (h, a)
  ]

  pub All-sort_by :
      (before : A → A → Bool) (rows : List A) → All P rows → All P (sort_by before rows)
  unfolding sort_by
  All-sort_by before [] a = tt
  All-sort_by before (r ∷ rs) a =
      All-insert_by before r (sort_by before rs) a.0 (All-sort_by before rs a.1)

  pub All-take : (n : ℕ) (rows : List A) → All P rows → All P (take n rows)
  All-take zero rows a = tt
  All-take (suc n) [] a = tt
  All-take (suc n) (r ∷ rs) a = (a.0, All-take n rs a.1)

  pub All-keep :
      (test : A → Bool) (rows : List A)
      → All (λ r. test r ≡ true → P r) rows
      → All P (keep test rows)
  unfolding keep
  All-keep test [] h = tt
  All-keep test (r ∷ rs) h = elim (Bool-cases (test r)) [
    | inl e ↦ rw e (h.0 e, All-keep test rs h.1)
    | inr e ↦ rw e (All-keep test rs h.1)
  ]

  -- What holds of every row that passes the test holds of every row chosen.
  pub All-choose :
      (before : A → A → Bool) (n : ℕ) (test : A → Bool) (rows : List A)
      → All (λ r. test r ≡ true → P r) rows
      → All P (choose before n test rows)
  unfolding choose
  All-choose before n test rows h =
      All-take n (sort_by before (keep test rows))
        (All-sort_by before (keep test rows) (All-keep test rows h))

pub length-choose-le {ℓ} :
    {A : Type ℓ} (before : A → A → Bool) (n : ℕ) (test : A → Bool) (rows : List A)
    → length (choose before n test rows) ≤ n
unfolding choose
length-choose-le before n test rows = length-take-le n (sort_by before (keep test rows))
