-- ===== src/Tests/Compliance.antt =====
-- Cases of the theorems on the report's orders.
use Prim.Native.Nat.{compare}
use katalog_manager.Base.{ℕ, suc, ◌≡◌, refl, true, none, some, List, [], ◌∷◌, arith, length}
use katalog_manager.Compliance.Order.{
  Row, Columns, KeyType, package_size, columns_of, sort_keys, comes_before, order_keys, write_all,
}
use katalog_manager.Compliance.Order.Agree.{compare-flip}
use katalog_manager.Compliance.Order.Pages.{AreOrdered, before, write_all_lem}

abbrev zero_of : KeyType → ℕ
zero_of t = 0

-- A row of a package's size, which may be none.
abbrev row : ℕ → Row ℕ
row id = record {
  package_bytes = none;
  original_bytes = none;
  saved_bytes = none;
  bitrate = none;
  lower_series = none;
  season = none;
  episode = none;
  lower_title = none;
  id = id;
}

abbrev small : Row ℕ
small = record (row 3) { package_bytes = some 10 }

abbrev large : Row ℕ
large = record (row 2) { package_bytes = some 20 }

-- The largest package first, and the row without one last.
abbrev columns : Row ℕ → Columns ℕ
columns r = columns_of zero_of package_size true r

abbrev rows : List (Row ℕ)
rows = large ∷ small ∷ row 1 ∷ []

rows-AreOrdered : AreOrdered (before compare compare-flip true columns) rows
unfolding comes_before order_keys columns_of sort_keys
rows-AreOrdered = ((refl, (refl, tt)), ((refl, tt), (tt, tt)))

write_all_lem_example : write_all compare true columns (suc (length rows)) 2 none rows ≡ some rows
write_all_lem_example =
    write_all_lem compare compare-flip true columns 2 rows (omega arith) rows-AreOrdered
