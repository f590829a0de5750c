-- ===== src/Compliance/Order/Pages.antt =====
-- The pages of the report: each begins where the last ended, and together they are all of its rows.
use katalog_manager.Base.{
  ℕ, zero, suc, ◌≤◌, ◌<◌, ◌≡◌, refl, sym, ap, ◌∙◌, Bool, true, false, Option, none, some, List, [],
  ◌∷◌, ◌++◌, arith, keep, take, length, All, ltb, ltb→lt, ◌==◌, Bool-cases, inl, inr,
}
use mathlib.Core.Path.{subst}
use mathlib.Core.List.{append_assoc}
use Prim.Native.Nat.{Ordering}
use katalog_manager.Compliance.Order.{
  Columns, flip, comes_before, after, matching, last_of, page, write_all,
}
use katalog_manager.Compliance.Order.Agree.{after_lem, comes_before-asymmetric}

module _ {R : Type 0} where
  All-middle : (P : R → Type 0) (ys : List R) (r : R) (zs : List R) → All P (ys ++ r ∷ zs) → P r
  All-middle P [] r zs (h, a) = h
  All-middle P (y ∷ ys) r zs (h, a) = All-middle P ys r zs a

  -- A list longer than n has a last row within its first n, and rows after it.
  last_split :
      (n : ℕ) (zs : List R)
      → 1 ≤ n
      → n < length zs
      → (init : List R) × (l : R) × (rest : List R) × (zs ≡ init ++ l ∷ rest)
        × (take n zs ≡ init ++ l ∷ [])
        × (length rest < length zs)
  last_split zero zs a b = absurd (omega arith)
  last_split (suc n) [] a b = absurd (omega arith)
  last_split (suc zero) (z ∷ zs) a b = ([], z, zs, refl, refl, omega arith)
  last_split (suc (suc n)) (z ∷ zs) a b =
      let (init, l, rest, e, t, s) = last_split (suc n) zs (omega arith) (omega arith) in
      (z ∷ init, l, rest, ap (λ m. z ∷ m) e, ap (λ m. z ∷ m) t, omega arith)

  last_of-append : (init : List R) (l : R) → last_of (init ++ l ∷ []) ≡ some l
  last_of-append [] l = refl
  last_of-append (a ∷ []) l = refl
  last_of-append (a ∷ b ∷ init) l = last_of-append (b ∷ init) l

  take-all : (n : ℕ) (zs : List R) → length zs ≤ n → take n zs ≡ zs
  take-all zero [] h = refl
  take-all zero (z ∷ zs) h = absurd (omega arith)
  take-all (suc n) [] h = refl
  take-all (suc n) (z ∷ zs) h = ap (λ m. z ∷ m) (take-all n zs (omega arith))

  lt-length-take : (n : ℕ) (zs : List R) → n < length zs → n < length (take (suc n) zs)
  lt-length-take zero [] h = absurd (omega arith)
  lt-length-take zero (z ∷ zs) h = omega arith
  lt-length-take (suc n) [] h = absurd (omega arith)
  lt-length-take (suc n) (z ∷ zs) h = omega (arith, lt-length-take n zs (omega arith))

  -- The first n of the first n + 1.
  take-take : (n : ℕ) (zs : List R) → take n (take (suc n) zs) ≡ take n zs
  take-take zero zs = refl
  take-take (suc n) [] = refl
  take-take (suc n) (z ∷ zs) = ap (λ m. z ∷ m) (take-take n zs)

module _ {R : Type 0} (before : R → R → Bool) where
  -- Each row comes before all the rows that follow it.
  abbrev pub AreOrdered : List R → Type 0
  AreOrdered [] = Unit
  AreOrdered (r ∷ rows) = All (λ s. before r s ≡ true) rows × AreOrdered rows

  keep-All : (p : R → Bool) (rows : List R) → All (λ s. p s ≡ true) rows → keep p rows ≡ rows
  unfolding keep
  keep-All p [] a = refl
  keep-All p (r ∷ rows) (h, a) = rw h (ap (λ l. r ∷ l) (keep-All p rows a))

  module _ (asymmetric : (r s : R) → before r s ≡ true → before s r ≡ false) where
    before-irreflexive : (r : R) → before r r ≡ false
    before-irreflexive r = elim (Bool-cases (before r r)) [ inl e ↦ asymmetric r r e | inr e ↦ e ]

    -- The rows that come after one of them are those that follow it.
    keep-after :
        (ys : List R) (r : R) (zs : List R)
        → AreOrdered (ys ++ r ∷ zs)
        → keep (before r) (ys ++ r ∷ zs) ≡ zs
    unfolding keep
    keep-after [] r zs (a, o) = rw (before-irreflexive r) (keep-All (before r) zs a)
    keep-after (y ∷ ys) r zs (a, o) =
        let no = asymmetric y r (All-middle (λ s. before y s ≡ true) ys r zs a) in
        rw no (keep-after ys r zs o)

module _ {Value : Type 0} (compare_values : Value → Value → Ordering)
    (flips : (v w : Value) → compare_values w v ≡ flip (compare_values v w)) (descending : Bool)
    {R : Type 0} (columns : R → Columns Value) where
  -- A row of the report comes before another.
  abbrev pub before : R → R → Bool
  before r s = comes_before compare_values descending (columns r) (columns s)

  keep-cong : (p q : R → Bool) → ((r : R) → p r ≡ q r) → (rows : List R) → keep p rows ≡ keep q rows
  unfolding keep
  keep-cong p q h [] = refl
  keep-cong p q h (r ∷ rows) = rw (h r, keep-cong p q h rows) refl

  matching-after :
      (ys : List R) (r : R) (zs : List R)
      → AreOrdered before (ys ++ r ∷ zs)
      → matching compare_values descending columns (some (columns r)) (ys ++ r ∷ zs) ≡ zs
  matching-after ys r zs o =
      keep-cong (λ s. after compare_values descending (columns r) (columns s)) (before r)
        (λ s. after_lem compare_values flips descending (columns r) (columns s)) (ys ++ r ∷ zs)
      ∙ keep-after before
          (λ a b. comes_before-asymmetric compare_values flips descending (columns a) (columns b))
          ys r zs o

  -- A page of all the rows that are left, and one that is not the last.
  page_last :
      (first : ℕ) (cursor : Option (Columns Value)) (rows zs : List R)
      → 1 ≤ first
      → matching compare_values descending columns cursor rows ≡ zs
      → length zs ≤ first
      → page compare_values descending columns first cursor rows ≡ (zs, none)
  unfolding page
  page_last first cursor rows zs a e h =
      let z : (first == 0) ≡ false = ground arith in
      let t = take-all (suc first) zs (omega arith) in
      let few : ltb first (length zs) ≡ false = ground arith in rw (e, z, t, few) refl

  page_more :
      (first : ℕ) (cursor : Option (Columns Value)) (rows zs init : List R) (l : R)
      → 1 ≤ first
      → matching compare_values descending columns cursor rows ≡ zs
      → first < length zs
      → take first zs ≡ init ++ l ∷ []
      → page compare_values descending columns first cursor rows
        ≡ (init ++ l ∷ [], some (columns l))
  unfolding page
  page_more first cursor rows zs init l a e h t =
      let z : (first == 0) ≡ false = ground arith in
      let long = lt-length-take first zs h in
      let more : ltb first (length (take (suc first) zs)) ≡ true = ground arith in
      rw (e, z, more, take-take first zs, t, last_of-append init l) refl

  write_all-from :
      (n batch : ℕ) (cursor : Option (Columns Value)) (rows ys zs : List R)
      → 1 ≤ batch
      → length zs < n
      → AreOrdered before rows
      → rows ≡ ys ++ zs
      → matching compare_values descending columns cursor rows ≡ zs
      → write_all compare_values descending columns n batch cursor rows ≡ some zs
  unfolding write_all
  write_all-from zero batch cursor rows ys zs a h o q e = absurd (omega arith)
  write_all-from (suc n) batch cursor rows ys zs a h o q e =
      elim (Bool-cases (ltb batch (length zs))) [
        | inr few ↦ rw (page_last batch cursor rows zs a e (ground arith)) refl
        | inl many ↦
            let long = ltb→lt batch (length zs) many in
            let (init, l, rest, split, first, fewer) = last_split batch zs a long in
            let q' : rows ≡ (ys ++ init) ++ l ∷ rest =
              q ∙ ap (λ m. ys ++ m) split ∙ sym (append_assoc ys init (l ∷ rest)) in
            let e' =
              ap (matching compare_values descending columns (some (columns l))) q'
              ∙ matching-after (ys ++ init) l rest (subst (AreOrdered before) q' o) in
            let more =
              write_all-from n batch (some (columns l)) rows ((ys ++ init) ++ l ∷ []) rest a
                (omega arith) o (q' ∙ sym (append_assoc (ys ++ init) (l ∷ []) rest)) e' in
            rw (page_more batch cursor rows zs init l a e long first, more)
              (ap some (append_assoc init (l ∷ []) rest ∙ sym split))
      ]

  -- The export ends, and writes every row that matches once, in the order, however many it reads at a
  -- time: of n rows within n + 1 pages, when each row comes before those that follow it. The comparison
  -- of two values is turned around when they are.
  pub write_all_lem :
      (batch : ℕ) (rows : List R)
      → 1 ≤ batch
      → AreOrdered before rows
      → write_all compare_values descending columns (suc (length rows)) batch none rows ≡ some rows
  write_all_lem batch rows a o =
      write_all-from (suc (length rows)) batch none rows [] rows a (omega arith) o refl refl
