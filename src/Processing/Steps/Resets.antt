-- ===== src/Processing/Steps/Resets.antt =====
-- What ResetForItems does to the table.
use katalog_manager.Base.{
  ℕ, ◌≡◌, refl, sym, Bool, true, false, ◌&&◌, Option, none, some, List, [], ◌∷◌, arith, any, count,
  ◌∙◌, if◌then◌else◌, ◌==◌,
}
use mathlib.Core.Option
use katalog_manager.Processing.Vocab.{Step, pending, same_step}
use katalog_manager.Processing.Table.{Row, find_row, reset_row}
use katalog_manager.Processing.Table.Keys.{KeepsKeys, find_row-update_where, update_where-count}
use katalog_manager.Processing.Steps.{Steps, reset_for_items}

reset_row-KeepsKeys : (now : ℕ) → KeepsKeys (reset_row now)
unfolding reset_row
reset_row-KeepsKeys now r = (refl, refl)

Option-map-same :
    (test : Row → Bool) (f : Row → Row)
    → ((r : Row) → test r ≡ false)
    → (o : Option Row) → o ≡ Option.map (λ r. if test r then f r else r) o
Option-map-same test f h none = refl
Option-map-same test f h (some r) = rw (h r)

and-false : (b : Bool) → (b && false) ≡ false
and-false b = ground arith

count-none :
    (test : Row → Bool) → ((r : Row) → test r ≡ false) → (rows : List Row) → count test rows ≡ 0
unfolding count
count-none test h [] = refl
count-none test h (r ∷ rows) = rw (h r) (omega (arith, count-none test h rows))

-- Among the steps and items it is given, and those alone, a reset has every step wait for its worker
-- afresh: no run under way, no error, no failures in a row, no retry and no trigger; its attempts and
-- its last error stay. It says how many rows it reset, and no key comes twice.
pub reset_for_items_lem :
    (now : ℕ) (items : List ℕ) (steps : List Step) (s : Steps) (i : ℕ) (t : Step)
    → s.migrated ≡ true
    → s.legacy ≡ false
    → let hit : Row → Bool = λ r. any (λ i. r.item == i) items && any (same_step r.step) steps in
      (find_row i t (reset_for_items now items steps s).0.rows
        ≡ Option.map
            (λ r.
              if hit r
              then record r {
                status = pending;
                started = none;
                finished = none;
                error = none;
                modified = some now;
                failures = 0;
                next_retry = none;
                dispatched = none;
              }
              else r)
            (find_row i t s.rows))
      × ((reset_for_items now items steps s).1 ≡ count hit s.rows)
unfolding reset_for_items reset_row
reset_for_items_lem now [] steps s i t m l = (
  Option-map-same (λ r. false) (reset_row now) (λ r. refl) (find_row i t s.rows)
      ∙ (unfold reset_row in refl),
  sym (count-none (λ r. false) (λ r. refl) s.rows),
)
reset_for_items_lem now (x ∷ xs) [] s i t m l =
    let never = λ (r : Row). and-false (any (λ i. r.item == i) (x ∷ xs)) in
    (
      Option-map-same (λ r. any (λ i. r.item == i) (x ∷ xs) && false) (reset_row now) never
          (find_row i t s.rows),
      sym (count-none _ never s.rows),
    )
reset_for_items_lem now (x ∷ xs) (st ∷ sts) s i t m l =
    let hit = λ (r : Row). any (λ i. r.item == i) (x ∷ xs) && any (same_step r.step) (st ∷ sts) in
    rw (l, m)
      (
        find_row-update_where hit (reset_row now) s.rows i t (reset_row-KeepsKeys now)
            ∙ (unfold reset_row in refl),
        update_where-count hit (reset_row now) s.rows,
      )
