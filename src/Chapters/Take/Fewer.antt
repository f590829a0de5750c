-- ===== src/Chapters/Take/Fewer.antt =====
-- internal/chapters/chapters.go: what take answers, and that put leaves no fewer chapters than it is given.
use katalog_manager.Base.{
  ℕ, suc, ◌≤◌, ◌≡◌, refl, ap, ◌∙◌, inl, inr, true, false, ◌&&◌, Option, List, [], ◌∷◌, length,
  Bool-cases, arith,
}
use katalog_manager.Base.Choice.{insert_by, sort_by}
use katalog_manager.Chapters.Title.{
  Chapter, has_chapters, same, written, Row, rows_of, comes_before, chapters_in,
}
use katalog_manager.Chapters.Title.Kept.{has_chapters-written}
use katalog_manager.Chapters.Read.{Replacer, Kept}
use katalog_manager.Chapters.Take.{
  How, take_write, take_keep, take_none, take_stay, take_hold, take, is_other, replace, put,
}

length-insert_by :
    (c : Row) (cs : List Row) → length (insert_by comes_before c cs) ≡ suc (length cs)
unfolding insert_by
length-insert_by c [] = refl
length-insert_by c (d ∷ cs) = ground (arith, length-insert_by c cs)

length-sort_by : (rows : List Row) → length (sort_by comes_before rows) ≡ length rows
unfolding sort_by
length-sort_by [] = refl
length-sort_by (r ∷ rows) =
    length-insert_by r (sort_by comes_before rows) ∙ ap suc (length-sort_by rows)

length-chapters_in : (rows : List Row) → length (chapters_in rows) ≡ length rows
length-chapters_in [] = refl
length-chapters_in (r ∷ rows) = ap suc (length-chapters_in rows)

length-rows_of : (ids : ℕ → ℕ) (cs : List Chapter) → length (rows_of ids cs) ≡ length cs
unfolding rows_of
length-rows_of ids [] = refl
length-rows_of ids (c ∷ cs) = ap suc (length-rows_of (λ i. ids (suc i)) cs)

length-written : (ids : ℕ → ℕ) (cs : List Chapter) → length (written ids cs) ≡ length cs
unfolding written
length-written ids cs =
    length-chapters_in (sort_by comes_before (rows_of ids cs))
    ∙ (length-sort_by (rows_of ids cs) ∙ length-rows_of ids cs)

-- What each answer of take says of the chapters in the catalog and of those read.
abbrev pub Says : List Chapter → List Chapter → Option ℕ → Option ℕ → How → Type 0
Says have got rows source take_write =
    (has_chapters got ≡ true) × ((is_other rows source ≡ false) → length have ≤ length got)
Says have got rows source take_keep = (has_chapters got ≡ true) × (has_chapters have ≡ true)
Says have got rows source take_none =
    (has_chapters got ≡ false) × ((is_other rows source ≡ false) → has_chapters have ≡ false)
Says have got rows source take_stay = has_chapters have ≡ true
Says have got rows source take_hold = has_chapters have ≡ true

length-none : (cs : List Chapter) → has_chapters cs ≡ false → length cs ≡ 0
length-none [] h = refl
length-none (c ∷ cs) h = cc

pub take-Says :
    (have got : List Chapter) (rows source : Option ℕ)
    → Says have got rows source (take have got rows source).0
unfolding take
take-Says have got rows source = ground (arith, length-none have)

-- The chapters before stand, or they were of another original than the read's, or there are no fewer.
pub data NoLoss (rows source : Option ℕ) (before after : List Chapter) : Type 0 where
  stands : after ≡ before → NoLoss rows source before after
  of_other : is_other rows source ≡ true → NoLoss rows source before after
  no_fewer : length before ≤ length after → NoLoss rows source before after

written-NoLoss :
    (ids : ℕ → ℕ) (have got : List Chapter) (rows source : Option ℕ)
    → ((is_other rows source ≡ false) → length have ≤ length got)
    → NoLoss rows source have (written ids got)
written-NoLoss ids have got rows source h = elim (Bool-cases (is_other rows source)) [
  | inl e ↦ of_other e
  | inr e ↦ no_fewer (rw (length-written ids got) (h e))
]

pub put-NoLoss :
    (got : List Chapter) (source : Option ℕ) (by : Replacer) (now : ℕ) (k : Kept)
    → ((is_other k.row.rows_source source ≡ false) → length k.chapters ≤ length got)
    → NoLoss k.row.rows_source source k.chapters
        (put got k.row.rows_source source by now k).chapters
unfolding put replace
put-NoLoss got source by now k h = elim (Bool-cases (has_chapters got && same k.chapters got)) [
  | inl e ↦ rw e (stands refl)
  | inr e ↦ rw e (written-NoLoss k.ids k.chapters got k.row.rows_source source h)
]

-- The answers after which put is called leave no fewer of the same original, or of none known.
pub none-fewer :
    (have got : List Chapter) (rows source : Option ℕ)
    → Says have got rows source take_none
    → (is_other rows source ≡ false)
    → length have ≤ length got
none-fewer have got rows source (e, h) o = omega (arith, length-none have (h o))

same-has_chapters :
    (have got : List Chapter) → same have got ≡ true → has_chapters have ≡ has_chapters got
unfolding same
same-has_chapters [] [] h = refl
same-has_chapters [] (c ∷ cs) h = cc
same-has_chapters (d ∷ ds) [] h = cc
same-has_chapters (d ∷ ds) (c ∷ cs) h = refl

-- There are chapters after put exactly when it was given some.
pub has_chapters-put :
    (got : List Chapter) (rows source : Option ℕ) (by : Replacer) (now : ℕ) (k : Kept)
    → has_chapters (put got rows source by now k).chapters ≡ has_chapters got
unfolding put replace
has_chapters-put got rows source by now k =
    elim (Bool-cases (has_chapters got && same k.chapters got)) [
      | inl e ↦ rw e (same-has_chapters k.chapters got (ground (arith, e)))
      | inr e ↦ rw e (has_chapters-written k.ids got)
    ]
