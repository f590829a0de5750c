-- ===== src/Compliance/Order/Agree.antt =====
-- The condition of a page after a cursor agrees with the order of the rows.
use Prim.Native.Nat.{compare, Ordering}
use katalog_manager.Base.{
  ℕ, ◌≡◌, refl, ap, ◌∙◌, sym, Bool, true, false, ◌&&◌, ◌||◌, List, [], ◌∷◌, arith, ltb, Bool-cases,
  inl, inr, if◌then◌else◌,
}
use katalog_manager.Compliance.Order.{
  Columns, compare_flags, flip, next_by, is_lt, is_gt, is_eq, directed, order_keys, comes_before,
  compare_rows, after,
}

flip-next_by : (o p : Ordering) → flip (next_by o p) ≡ next_by (flip o) (flip p)
flip-next_by Ordering.lt p = refl
flip-next_by Ordering.eq p = refl
flip-next_by Ordering.gt p = refl

pub compare-flip : (a b : ℕ) → compare b a ≡ flip (compare a b)
compare-flip a b = ground arith

compare_flags-flip : (a b : Bool) → compare_flags b a ≡ flip (compare_flags a b)
compare_flags-flip true true = refl
compare_flags-flip true false = refl
compare_flags-flip false true = refl
compare_flags-flip false false = refl

next_by-cong : (o o' p p' : Ordering) → o ≡ o' → p ≡ p' → next_by o p ≡ next_by o' p'
next_by-cong o o' p p' a b = rw (a, b) refl

directed-flip :
    (descending : Bool) (o : Ordering)
    → (if descending then flip (flip o) else flip o) ≡ flip (if descending then flip o else o)
directed-flip true o = refl
directed-flip false o = refl

is_lt-flip : (o : Ordering) → is_lt o ≡ true → is_lt (flip o) ≡ false
is_lt-flip Ordering.lt h = refl
is_lt-flip Ordering.eq h = absurd (cc h)
is_lt-flip Ordering.gt h = absurd (cc h)

after_of :
    (descending : Bool) (o : Ordering) (m n : ℕ)
    → ((if descending then is_lt (flip o) else is_gt (flip o)) || (is_eq (flip o) && ltb m n))
      ≡ is_lt (next_by (if descending then flip o else o) (compare m n))
after_of true Ordering.lt m n = refl
after_of true Ordering.eq m n = ground arith
after_of true Ordering.gt m n = refl
after_of false Ordering.lt m n = refl
after_of false Ordering.eq m n = ground arith
after_of false Ordering.gt m n = refl

module _ {Value : Type 0} (compare_values : Value → Value → Ordering)
    (flips : (v w : Value) → compare_values w v ≡ flip (compare_values v w))
    (descending : Bool) where
  compare_rows-flip :
      (xs ys : List (Bool × Value))
      → compare_rows compare_values descending ys xs
        ≡ flip (compare_rows compare_values descending xs ys)
  unfolding compare_rows
  compare_rows-flip [] [] = refl
  compare_rows-flip [] (b ∷ ys) = refl
  compare_rows-flip (a ∷ xs) [] = refl
  compare_rows-flip ((f, v) ∷ xs) ((g, w) ∷ ys) =
      let o = compare_flags f g in
      let p = compare_values v w in
      let q = compare_rows compare_values descending xs ys in
      let rest = compare_rows compare_values descending ys xs in
      let inner : next_by (compare_values w v) rest ≡ flip (next_by p q) =
        next_by-cong (compare_values w v) (flip p) rest (flip q) (flips v w)
          (compare_rows-flip xs ys)
        ∙ sym (flip-next_by p q) in
      next_by-cong (compare_flags g f) (flip o) (next_by (compare_values w v) rest)
        (flip (next_by p q)) (compare_flags-flip f g) inner
      ∙ sym (flip-next_by o (next_by p q))

  directed-next_by :
      (o p : Ordering)
      → directed compare_values descending (next_by o p)
        ≡ next_by (directed compare_values descending o) (directed compare_values descending p)
  directed-next_by o p = elim (Bool-cases descending) [
    | inl e ↦ rw e (flip-next_by o p)
    | inr e ↦ rw e refl
  ]

  order_keys_lem :
      (xs ys : List (Bool × Value))
      → order_keys compare_values descending xs ys
        ≡ directed compare_values descending (compare_rows compare_values descending xs ys)
  unfolding order_keys compare_rows
  order_keys_lem [] ys = ground arith
  order_keys_lem (a ∷ xs) [] = ground arith
  order_keys_lem ((f, v) ∷ xs) ((g, w) ∷ ys) =
      let o = compare_flags f g in
      let p = compare_values v w in
      let q = compare_rows compare_values descending xs ys in
      let d = directed compare_values descending in
      next_by-cong (d o) (d o) (next_by (d p) (order_keys compare_values descending xs ys))
        (d (next_by p q)) refl
        (next_by-cong (d p) (d p) (order_keys compare_values descending xs ys) (d q) refl
            (order_keys_lem xs ys)
          ∙ sym (directed-next_by p q))
      ∙ sym (directed-next_by o (next_by p q))

  -- A row comes after a cursor exactly when the cursor comes before it in the order.
  pub after_lem :
      (cursor r : Columns Value)
      → after compare_values descending cursor r ≡ comes_before compare_values descending cursor r
  unfolding after comes_before
  after_lem cursor r =
      let f = compare_rows-flip cursor.keys r.keys in
      let k = order_keys_lem cursor.keys r.keys in
      rw (f, k)
        (after_of descending (compare_rows compare_values descending cursor.keys r.keys)
          cursor.last_id r.last_id)

  comes_before-flip :
      (a b : Columns Value)
      → next_by (order_keys compare_values descending b.keys a.keys) (compare b.last_id a.last_id)
        ≡ flip (
            next_by
              (order_keys compare_values descending a.keys b.keys)
              (compare a.last_id b.last_id))
  comes_before-flip a b =
      let k = order_keys compare_values descending a.keys b.keys in
      let k' = order_keys compare_values descending b.keys a.keys in
      let rows = compare_rows compare_values descending a.keys b.keys in
      let d = directed compare_values descending in
      let same : k' ≡ flip k =
        order_keys_lem b.keys a.keys
        ∙ ap d (compare_rows-flip a.keys b.keys)
        ∙ directed-flip descending rows
        ∙ ap flip (sym (order_keys_lem a.keys b.keys)) in
      next_by-cong k' (flip k) (compare b.last_id a.last_id) (flip (compare a.last_id b.last_id))
        same (compare-flip a.last_id b.last_id)
      ∙ sym (flip-next_by k (compare a.last_id b.last_id))

  -- No two rows come before each other.
  pub comes_before-asymmetric :
      (a b : Columns Value)
      → comes_before compare_values descending a b ≡ true
      → comes_before compare_values descending b a ≡ false
  unfolding comes_before
  comes_before-asymmetric a b h =
      ap is_lt (comes_before-flip a b)
      ∙ is_lt-flip
          (next_by (order_keys compare_values descending a.keys b.keys)
            (compare a.last_id b.last_id))
          h
