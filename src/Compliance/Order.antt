-- ===== src/Compliance/Order.antt =====
-- internal/compliance/order.go: the orders of the report's rows, the cursors that its pages end with, and
-- the page after a cursor (rows of internal/compliance/report.go).
pub mod Agree
pub mod Pages
pub mod Nulls
use Prim.Native.Nat.{compare, Ordering}
use katalog_manager.Base.{
  ℕ, zero, suc, ◌+◌, Bool, true, false, not, ◌&&◌, ◌||◌, Option, none, some, List, [], ◌∷◌, ◌++◌,
  map, min, keep, take, length, is_some, leb, ltb, ◌==◌, if◌then◌else◌,
}
use katalog_manager.Base.Text.{Text, codes}
use katalog_manager.Picture.Area.{same_text}

pub data Sort : Type 0 where
  package_size original_size saving video_bitrate title : Sort

-- sortKeys, by the name of the order; none is one that Sorts does not name.
unfoldable pub sort_of : Text → Option Sort
sort_of name =
    if same_text name [] || same_text name (codes "PACKAGE_SIZE")
    then some package_size
    else if same_text name (codes "ORIGINAL_SIZE")
    then some original_size
    else if same_text name (codes "SAVING")
    then some saving
    else if same_text name (codes "VIDEO_BITRATE")
    then some video_bitrate
    else if same_text name (codes "TITLE")
    then some title
    else none

-- The types of the keys.
pub data KeyType : Type 0 where
  bigint float8 integer text : KeyType

-- Values of any of these types, as Postgres compares those of one.
module _ (Value : Type 0) where
  -- The SQL expressions of the keys, of a row of the report, and its id.
  pub record Row : Type 0 where
    pub package_bytes : Option Value
    pub original_bytes : Option Value
    pub saved_bytes : Option Value
    pub bitrate : Option Value
    pub lower_series : Option Value
    pub season : Option Value
    pub episode : Option Value
    pub lower_title : Option Value
    pub id : ℕ

  -- A row's columns of an order: each key's flag and value, then the id.
  pub record Columns : Type 0 where
    pub keys : List (Bool × Value)
    pub last_id : ℕ

module _ {Value : Type 0} where
  -- sortKeys
  unfoldable pub sort_keys : Sort → List ((Row Value → Option Value) × KeyType)
  sort_keys package_size = (λ r. r.package_bytes, bigint) ∷ (λ r. r.original_bytes, bigint) ∷ []
  sort_keys original_size = (λ r. r.original_bytes, bigint) ∷ (λ r. r.package_bytes, bigint) ∷ []
  sort_keys saving = (λ r. r.saved_bytes, bigint) ∷ (λ r. r.package_bytes, bigint) ∷ []
  sort_keys video_bitrate = (λ r. r.bitrate, float8) ∷ (λ r. r.package_bytes, bigint) ∷ []
  sort_keys title =
      (λ r. r.lower_series, text)
      ∷ (λ r. r.season, integer)
      ∷ (λ r. r.episode, integer)
      ∷ (λ r. r.lower_title, text)
      ∷ []

abbrev pub or_zero {ℓ} : {A : Type ℓ} → A → Option A → A
or_zero z none = z
or_zero z (some v) = v

-- An order is a sort and a direction; zero are the values a null key is read as.
module _ {Value : Type 0} (zero_of : KeyType → Value) (sort : Sort) (descending : Bool) where
  -- A key's flag, which sorts a null one last whichever the direction, and its value.
  abbrev pub column : Row Value → (Row Value → Option Value) × KeyType → Bool × Value
  column r (key, of_type) =
      let null = not (is_some (key r)) in
      (if descending then not null else null, or_zero (zero_of of_type) (key r))

  -- cols
  unfoldable pub columns_of : Row Value → Columns Value
  unfolding sort_keys
  columns_of r = record { keys = map (column r) (sort_keys sort); last_id = r.id }

abbrev pub compare_flags : Bool → Bool → Ordering
compare_flags false true = Ordering.lt
compare_flags true false = Ordering.gt
compare_flags a b = Ordering.eq

abbrev pub flip : Ordering → Ordering
flip Ordering.lt = Ordering.gt
flip Ordering.eq = Ordering.eq
flip Ordering.gt = Ordering.lt

abbrev pub next_by : Ordering → Ordering → Ordering
next_by Ordering.eq o = o
next_by o p = o

abbrev pub is_lt : Ordering → Bool
is_lt Ordering.lt = true
is_lt o = false

abbrev pub is_gt : Ordering → Bool
is_gt Ordering.gt = true
is_gt o = false

abbrev pub is_eq : Ordering → Bool
is_eq Ordering.eq = true
is_eq o = false

module _ {Value : Type 0} (compare_values : Value → Value → Ordering) (descending : Bool) where
  -- A column's direction, ASC or DESC.
  abbrev pub directed : Ordering → Ordering
  directed o = if descending then flip o else o

  -- orderBy: each column in its direction, then the id, ascending.
  unfoldable pub order_keys : List (Bool × Value) → List (Bool × Value) → Ordering
  order_keys [] bs = Ordering.eq
  order_keys (a ∷ rest) [] = Ordering.eq
  order_keys ((f, v) ∷ rest) ((g, w) ∷ more) =
      next_by (directed (compare_flags f g))
        (next_by (directed (compare_values v w)) (order_keys rest more))

  unfoldable pub comes_before : Columns Value → Columns Value → Bool
  unfolding order_keys
  comes_before a b = is_lt (next_by (order_keys a.keys b.keys) (compare a.last_id b.last_id))

  -- SQL's comparison of two rows of columns: the first that differ decide.
  unfoldable pub compare_rows : List (Bool × Value) → List (Bool × Value) → Ordering
  compare_rows [] bs = Ordering.eq
  compare_rows (a ∷ rest) [] = Ordering.eq
  compare_rows ((f, v) ∷ rest) ((g, w) ∷ more) =
      next_by (compare_flags f g) (next_by (compare_values v w) (compare_rows rest more))

  -- after: the condition that a row's columns come after the cursor's.
  unfoldable pub after : Columns Value → Columns Value → Bool
  unfolding compare_rows
  after cursor r =
      let o = compare_rows r.keys cursor.keys in
      (if descending then is_lt o else is_gt o) || (is_eq o && ltb cursor.last_id r.last_id)

module _ {R : Type 0} where
  abbrev pub last_of : List R → Option R
  last_of [] = none
  last_of (r ∷ []) = some r
  last_of (r ∷ s ∷ rows) = last_of (s ∷ rows)

  abbrev pub written : List R → Option (List R) → Option (List R)
  written rows none = none
  written rows (some more) = some (rows ++ more)

-- The page of the rows that match, in the order that ORDER BY gives them; columns are those of a row.
module _ {Value : Type 0} (compare_values : Value → Value → Ordering) (descending : Bool)
    {R : Type 0} (columns : R → Columns Value) where
  abbrev pub matching : Option (Columns Value) → List R → List R
  matching none rows = rows
  matching (some cursor) rows = keep (λ r. after compare_values descending cursor (columns r)) rows

  abbrev pub cursor_of : Option R → Option (Columns Value)
  cursor_of none = none
  cursor_of (some r) = some (columns r)

  -- rows: first rows at most, and the next page's cursor, if there is one.
  unfoldable pub page : ℕ → Option (Columns Value) → List R → List R × Option (Columns Value)
  unfolding after
  page first cursor rows =
      let found = take (suc first) (matching cursor rows) in
      if first == 0
      then ([], none)
      else if ltb first (length found)
      then (take first found, cursor_of (last_of (take first found)))
      else (found, none)

  -- Export.Write: the rows that its loop writes, batch at a time, of one snapshot of the rows that match;
  -- none is a loop that has not ended after so many pages.
  unfoldable pub write_all : ℕ → ℕ → Option (Columns Value) → List R → Option (List R)
  unfolding page
  write_all zero batch cursor rows = none
  write_all (suc n) batch cursor rows =
      let (found, next) = page batch cursor rows in
      let rest = write_all n batch next rows in
      if is_some next then written found rest else some found
