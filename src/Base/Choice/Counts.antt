-- ===== src/Base/Choice/Counts.antt =====
-- How many elements a choice has, and of which keys.
use katalog_manager.Base.{
  ℕ, zero, suc, ◌+◌, ◌≤◌, ◌≡◌, refl, Bool, true, false, ◌||◌, ◌&&◌, List, [], ◌∷◌, arith, take,
  keep, count, min, length, All, any, ◌==◌,
}
use katalog_manager.Base.Choice.{insert_by, sort_by, choose}
use katalog_manager.Base.Counting.{AreUnique}

module _ {ℓ} {A : Type ℓ} (before : A → A → Bool) where
  count-insert_by :
      (p : A → Bool) (r : A) (rows : List A)
      → count p (insert_by before r rows) ≡ count p (r ∷ rows)
  unfolding insert_by count
  count-insert_by p r [] = refl
  count-insert_by p r (q ∷ qs) = ground (arith, count-insert_by p r qs)

  count-sort_by : (p : A → Bool) (rows : List A) → count p (sort_by before rows) ≡ count p rows
  unfolding sort_by count
  count-sort_by p [] = refl
  count-sort_by p (r ∷ rs) =
      omega (arith, count-insert_by p r (sort_by before rs), count-sort_by p rs)

module _ {ℓ} {A : Type ℓ} where
  count-take-le : (p : A → Bool) (n : ℕ) (rows : List A) → count p (take n rows) ≤ count p rows
  unfolding count
  count-take-le p zero rows = omega arith
  count-take-le p (suc n) [] = omega arith
  count-take-le p (suc n) (r ∷ rs) = omega (arith, count-take-le p n rs)

  count-keep-le : (p test : A → Bool) (rows : List A) → count p (keep test rows) ≤ count p rows
  unfolding count keep
  count-keep-le p test [] = omega arith
  count-keep-le p test (r ∷ rs) = ground (arith, count-keep-le p test rs)

  pub length-keep : (test : A → Bool) (rows : List A) → length (keep test rows) ≡ count test rows
  unfolding count keep
  length-keep test [] = refl
  length-keep test (r ∷ rs) = ground (arith, length-keep test rs)

  length-take : (n : ℕ) (rows : List A) → length (take n rows) ≡ min n (length rows)
  length-take zero rows = omega arith
  length-take (suc n) [] = omega arith
  length-take (suc n) (r ∷ rs) = omega (arith, length-take n rs)

  length-count : (rows : List A) → length rows ≡ count (λ r. true) rows
  unfolding count
  length-count [] = refl
  length-count (r ∷ rs) = omega (arith, length-count rs)

module _ {ℓ} {A : Type ℓ} (before : A → A → Bool) (n : ℕ) (test : A → Bool) (rows : List A) where
  -- A choice has as many elements as pass its test, up to its limit, and of any kind no more than
  -- there are.
  pub length-choose : length (choose before n test rows) ≡ min n (count test rows)
  unfolding choose
  length-choose =
      let sorted = sort_by before (keep test rows) in
      omega (
        arith,
        length-take n sorted,
        length-count {ℓ} sorted,
        count-sort_by before (λ r. true) (keep test rows),
        length-count {ℓ} (keep test rows),
        length-keep test rows,
      )

  pub count-choose-le : (p : A → Bool) → count p (choose before n test rows) ≤ count p rows
  unfolding choose
  count-choose-le p =
      let sorted = sort_by before (keep test rows) in
      omega (
        arith,
        count-take-le p n sorted,
        count-sort_by before p (keep test rows),
        count-keep-le p test rows,
      )

module _ {ℓ} {A : Type ℓ} where
  count-or-disjoint :
      (p q : A → Bool) (rows : List A)
      → All (λ r. p r && q r ≡ false) rows
      → count (λ r. p r || q r) rows ≡ count p rows + count q rows
  unfolding count
  count-or-disjoint p q [] a = refl
  count-or-disjoint p q (r ∷ rs) (h, a) = ground (arith, count-or-disjoint p q rs a)

module _ {ℓ} {A : Type ℓ} (key : A → ℕ) where
  -- Elements of which no key is there twice.
  pub AreUnique-of : (xs : List A) → ((n : ℕ) → count (λ y. key y == n) xs ≤ 1) → AreUnique key xs
  unfolding count
  AreUnique-of [] h = tt
  AreUnique-of (x ∷ xs) h =
      let once = h (key x) in (ground (arith, once), AreUnique-of xs (λ n. ground (arith, h n)))

  apart :
      (q : A) (qs : List A) (r : A)
      → count (λ y. key y == key q) qs ≡ 0
      → (key q == key r) && any (λ p. key p == key r) qs ≡ false
  unfolding count
  apart q [] r h = ground arith
  apart q (p ∷ ps) r h = ground (arith, apart q ps r (ground arith))

  -- No key is both one of the first's and among the others, when the first's is not among these.
  key_apart :
      (q : A) (qs rows : List A)
      → count (λ y. key y == key q) qs ≡ 0
      → All (λ r. (key q == key r) && any (λ p. key p == key r) qs ≡ false) rows
  key_apart q qs [] h = tt
  key_apart q qs (r ∷ rs) h = (apart q qs r h, key_apart q qs rs h)

  -- Of elements that are each among some rows, no two of one key, there are no more than the rows whose
  -- key is one of theirs.
  pub length-le-count :
      (chosen rows : List A)
      → AreUnique key chosen
      → All (λ q. 1 ≤ count (λ r. key q == key r) rows) chosen
      → length chosen ≤ count (λ r. any (λ q. key q == key r) chosen) rows
  length-le-count [] rows u a = omega arith
  length-le-count (q ∷ qs) rows (once, u) (here, a) = omega (
    arith,
    length-le-count qs rows u a,
    count-or-disjoint {ℓ} (λ r. key q == key r) (λ r. any (λ p. key p == key r) qs) rows
        (key_apart q qs rows once),
  )
