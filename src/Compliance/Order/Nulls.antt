-- ===== src/Compliance/Order/Nulls.antt =====
-- Where an order puts the rows that have no value of its first key.
use katalog_manager.Base.{◌≡◌, refl, Bool, true, false, Option, none, List, ◌∷◌, is_some}
use Prim.Native.Nat.{Ordering}
use katalog_manager.Compliance.Order.{
  Row, Sort, KeyType, sort_keys, columns_of, order_keys, comes_before,
}

module _ {Value : Type 0} (compare_values : Value → Value → Ordering)
    (zero_of : KeyType → Value) where
  -- Whichever the order and its direction, a row that has no value of the order's first key comes after
  -- every row that has one.
  pub columns_of-null :
      (sort : Sort) (descending : Bool) (key : Row Value → Option Value) (of_type : KeyType)
      (rest : List ((Row Value → Option Value) × KeyType)) (r s : Row Value)
      → sort_keys sort ≡ (key, of_type) ∷ rest
      → key r ≡ none
      → is_some (key s) ≡ true
      → comes_before compare_values descending
          (columns_of zero_of sort descending s)
          (columns_of zero_of sort descending r)
        ≡ true
  unfolding columns_of comes_before order_keys
  columns_of-null sort true key of_type rest r s e n h = rw (e, n, h) refl
  columns_of-null sort false key of_type rest r s e n h = rw (e, n, h) refl
