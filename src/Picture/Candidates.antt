-- ===== src/Picture/Candidates.antt =====
-- internal/picture/backfill.go: the titles that a claim looks at (candidatesSQL): which, and in what
-- order. The titles of its inner query and the rows of the view of current areas are arguments.
use Prim.Native.Nat.{compare, Ordering}
use katalog_manager.Base.{
  ℕ, ◌+◌, ◌*◌, Bool, true, false, not, ◌&&◌, ◌||◌, Option, none, some, List, is_some, ltb, leb,
  ◌==◌, any,
}
use katalog_manager.Base.Choice.{choose}
use katalog_manager.Base.Text.{Text, is_empty}
use katalog_manager.Picture.Report.{
  AreaState, measured, unknown, ReadKind, kind_original, kind_package,
}
use katalog_manager.Picture.Area.{hour, is_token}
use katalog_manager.Picture.Record.{is_told}
use katalog_manager.Picture.Backfill.{Entry, Title, find_entry}

-- UnknownAgain and MeasureAgainAfter
abbrev pub unknown_again : ℕ
unknown_again = 30 * 24 * hour

abbrev pub measure_again_after : ℕ
measure_again_after = 24 * hour

-- A row of the view of the areas of what titles play now; gap and cost are doubts of its sampling.
pub record Current : Type 0 where
  pub id : ℕ
  pub state : AreaState
  pub method : Option Text
  pub measured_at : Option ℕ
  pub measured_on : Option ReadKind
  pub gap : Bool
  pub cost : Bool

abbrev pub is_measured : AreaState → Bool
is_measured measured = true
is_measured _ = false

abbrev pub is_unknown : AreaState → Bool
is_unknown unknown = true
is_unknown _ = false

abbrev pub on_package : Option ReadKind → Bool
on_package (some kind_package) = true
on_package _ = false

abbrev pub on_original : Option ReadKind → Bool
on_original (some kind_original) = true
on_original _ = false

-- time > now - wait
abbrev pub within : ℕ → ℕ → Option ℕ → Bool
within wait now none = false
within wait now (some t) = ltb now (t + wait)

-- An area of what the title plays now, which stands.
unfoldable pub stands : Text → ℕ → Title → Current → Bool
stands method now t c =
    c.id == t.id
    && is_told c.state
    && (is_empty method || is_token method c.method)
    && (is_measured c.state
        || within unknown_again now c.measured_at
        || (on_package c.measured_on && c.gap)
        || c.cost)
    && not (t.original && is_unknown c.state && not (on_original c.measured_on))

-- time <= now, or none
abbrev pub is_past : ℕ → Option ℕ → Bool
is_past now none = true
is_past now (some t) = leb t now

-- What the row of a title must be for it to be handed out, if there is one.
abbrev pub may_go : ℕ → Option Entry → Bool
may_go now none = true
may_go now (some e) =
    not (is_some e.area.claimed_at)
    && is_past now e.area.next_attempt
    && not (within measure_again_after now e.area.measured_at)

unfoldable pub is_candidate : List Current → Text → ℕ → List Entry → Title → Bool
unfolding stands
is_candidate current method now es t =
    not (any (stands method now t) current) && may_go now (find_entry t.id es)

-- The original could not tell by another method than this one, and not for its cost, which the
-- parameter costs reads of its sampling.
unfoldable pub told_otherwise : (Entry → Bool) → Text → Option Entry → Bool
told_otherwise costs method none = false
told_otherwise costs method (some e) =
    is_unknown e.area.state
    && not (is_empty method)
    && not (is_token method e.area.method)
    && on_original e.area.measured_on
    && not (costs e)

abbrev was_measured : Option Entry → Bool
was_measured none = false
was_measured (some e) = is_some e.area.measured_at

-- The next key of an order, of two rows alike so far.
abbrev next_key : Ordering → Ordering → Ordering
next_key Ordering.eq o = o
next_key o _ = o

abbrev true_first : Bool → Bool → Ordering
true_first true false = Ordering.lt
true_first false true = Ordering.gt
true_first _ _ = Ordering.eq

-- DESC NULLS LAST
abbrev latest_first : Option ℕ → Option ℕ → Ordering
latest_first none none = Ordering.eq
latest_first none (some t) = Ordering.gt
latest_first (some s) none = Ordering.lt
latest_first (some s) (some t) = compare t s

abbrev pub is_before : Ordering → Bool
is_before Ordering.gt = false
is_before _ = true

-- ORDER BY
unfoldable pub goes_before : (Entry → Bool) → Text → List Entry → Title → Title → Bool
unfolding told_otherwise
goes_before costs method es s t =
    let a = find_entry s.id es in
    let b = find_entry t.id es in
    let otherwise = told_otherwise costs method in
    is_before (
      next_key (true_first s.original t.original) (
        next_key (true_first (otherwise a) (otherwise b)) (
          next_key (true_first (not (was_measured a)) (not (was_measured b))) (
            next_key (compare s.frame t.frame) (
              next_key (latest_first s.completed t.completed)
                (next_key (compare s.rank t.rank) (compare s.id t.id)))))))

-- candidatesSQL
unfoldable pub candidates :
    (Entry → Bool) → List Current → Text → ℕ → ℕ → List Entry → List Title → List Title
unfolding goes_before is_candidate choose
candidates costs current method now limit es titles =
    choose (goes_before costs method es) limit (is_candidate current method now es) titles
