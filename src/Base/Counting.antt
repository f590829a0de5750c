-- ===== src/Base/Counting.antt =====
-- Counting in lists whose elements have keys of their own.
use Prim.Native.Nat.{ℕ, ◌+◌, ◌≤◌}
use mathlib.Core.Path.{◌≡◌, refl}
use mathlib.Core.Logic.{inl, inr}
use mathlib.Core.Bool.{Bool, false, ◌||◌}
use mathlib.Core.List.{List, [], ◌∷◌}
use native.Mathlib.Omega.{arith}
use katalog_manager.Base.Tests.{◌==◌, Bool-cases, ==_iff}
use katalog_manager.Base.Lists.{count, any, length}

module _ {ℓ} {A : Type ℓ} where
  pub count-or-le :
      (p q : A → Bool) (xs : List A) → count (λ x. p x || q x) xs ≤ count p xs + count q xs
  unfolding count
  count-or-le p q [] = omega arith
  count-or-le p q (x ∷ xs) = ground (arith, count-or-le p q xs)

  pub count-false : (xs : List A) → count (λ x. false) xs ≡ 0
  unfolding count
  count-false [] = refl
  count-false (x ∷ xs) = omega (arith, count-false xs)

module _ {ℓ} {A : Type ℓ} (key : A → ℕ) where
  -- No two elements of one key.
  abbrev pub AreUnique : List A → Type 0
  AreUnique [] = Unit
  AreUnique (x ∷ xs) = (count (λ y. key y == key x) xs ≡ 0) × AreUnique xs

  count-key-le : (n : ℕ) (xs : List A) → AreUnique xs → count (λ y. key y == n) xs ≤ 1
  unfolding count
  count-key-le n [] u = omega arith
  count-key-le n (x ∷ xs) (once, u) = elim (Bool-cases (key x == n)) [
    | inl e ↦
        let same : key x ≡ n = (==_iff (key x) n).0 e in
        let none_left : count (λ y. key y == n) xs ≡ 0 = rw same at once in rw e (omega arith)
    | inr e ↦ rw e (omega (arith, count-key-le n xs u))
  ]

  count-flip : (n : ℕ) (xs : List A) → count (λ y. n == key y) xs ≡ count (λ y. key y == n) xs
  unfolding count
  count-flip n [] = refl
  count-flip n (x ∷ xs) = ground (arith, count-flip n xs)

  count-key-flip : (n : ℕ) (xs : List A) → AreUnique xs → count (λ y. n == key y) xs ≤ 1
  count-key-flip n xs u = rw (count-flip n xs) (count-key-le n xs u)

  -- The elements whose keys are among some numbers are no more than the numbers.
  pub count-keys-le :
      (ids : List ℕ) (xs : List A)
      → AreUnique xs
      → count (λ y. any (λ i. i == key y) ids) xs ≤ length ids
  count-keys-le [] xs u = omega (arith, count-false {ℓ} xs)
  count-keys-le (i ∷ ids) xs u = omega (
    arith,
    count-or-le {ℓ} (λ y. i == key y) (λ y. any (λ j. j == key y) ids) xs,
    count-keys-le ids xs u,
    count-key-flip i xs u,
  )
