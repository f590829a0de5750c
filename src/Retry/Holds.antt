-- ===== src/Retry/Holds.antt =====
-- A condition on every row of the step table, its ids unique, under the two kinds of statement: an
-- upsert and an update.
use katalog_manager.Base.{
  ℕ, ◌≡◌, inl, inr, refl, ◌∙◌, Bool, true, false, List, [], ◌∷◌, arith, All, Bool-cases, ◌==◌,
}
use katalog_manager.Processing.Vocab.{Step}
use katalog_manager.Processing.Table.{Row, upsert_rows, update_where, has_key}
use katalog_manager.Retry.Claim.Once.{has_id}
use katalog_manager.Retry.Claim.Chosen.{HasUniqueIds}

-- A condition on a row, and that no two rows share an id.
abbrev pub Holds : (Row → Type 0) → List Row → Type 0
Holds P t = All P t × HasUniqueIds t

abbrev pub KeepsIds : (Row → Row) → Type 0
KeepsIds f = (r : Row) → (f r).id ≡ r.id

pub has_id-cons :
    (r : Row) (rs : List Row) (n : ℕ)
    → has_id (r ∷ rs) n ≡ false
    → ((n == r.id) ≡ false) × (has_id rs n ≡ false)
unfolding has_id
has_id-cons r rs n h = ground arith

module _ (P : Row → Type 0) where
  pub has_id-update_where :
      (test : Row → Bool) (set : Row → Row) (t : List Row) (n : ℕ)
      → KeepsIds set
      → has_id (update_where test set t).0 n ≡ has_id t n
  unfolding has_id update_where
  has_id-update_where test set [] n k = refl
  has_id-update_where test set (r ∷ rs) n k =
      ground (arith, k r, has_id-update_where test set rs n k)

  pub Holds-update_where :
      (test : Row → Bool) (set : Row → Row) (t : List Row)
      → KeepsIds set
      → All (λ r. test r ≡ true → P r → P (set r)) t
      → Holds P t
      → Holds P (update_where test set t).0
  unfolding update_where
  Holds-update_where test set [] k h a = (tt, tt)
  Holds-update_where test set (r ∷ rs) k h (a, u) =
      let (rest, unique) = Holds-update_where test set rs k h.1 (a.1, u.1) in
      let fresh = has_id-update_where test set rs r.id k ∙ u.0 in
      elim (Bool-cases (test r)) [
        | inl e ↦ rw e ((h.0 e a.0, rest), (rw (k r) fresh, unique))
        | inr e ↦ rw e ((a.0, rest), (fresh, unique))
      ]

  pub has_id-upsert_rows :
      (item : ℕ) (s : Step) (new : Row) (update : Row → Row) (t : List Row) (n : ℕ)
      → KeepsIds update
      → (new.id == n) ≡ false
      → has_id t n ≡ false
      → has_id (upsert_rows item s new update t) n ≡ false
  unfolding has_id upsert_rows
  has_id-upsert_rows item s new update [] n k f h = ground arith
  has_id-upsert_rows item s new update (r ∷ rs) n k f h =
      ground (arith, k r, has_id-upsert_rows item s new update rs n k f)

  pub Holds-upsert_rows :
      (item : ℕ) (s : Step) (new : Row) (update : Row → Row) (t : List Row)
      → KeepsIds update
      → has_id t new.id ≡ false
      → P new
      → ((r : Row) → P r → P (update r))
      → Holds P t
      → Holds P (upsert_rows item s new update t)
  unfolding upsert_rows
  Holds-upsert_rows item s new update [] k f pn pu h = ((pn, tt), (unfold has_id in refl, tt))
  Holds-upsert_rows item s new update (r ∷ rs) k f pn pu (a, u) =
      elim (Bool-cases (has_key item s r)) [
        | inl e ↦ rw e ((pu r a.0, a.1), (rw (k r) u.0, u.1))
        | inr e ↦
            let (other, free) = has_id-cons r rs new.id f in
            let (rest, unique) = Holds-upsert_rows item s new update rs k free pn pu (a.1, u.1) in
            rw e ((a.0, rest), (has_id-upsert_rows item s new update rs r.id k other u.0, unique))
      ]
