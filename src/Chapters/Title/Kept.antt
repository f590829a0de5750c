-- ===== src/Chapters/Title/Kept.antt =====
-- internal/chapters/chapters.go: the order and the titles of chapters as they are read back.
use katalog_manager.Base.{
  ℕ, suc, ◌≡◌, ◌∙◌, refl, ap, true, false, List, [], ◌∷◌, All, Bool-cases, inl, inr, arith,
}
use katalog_manager.Base.Choice.{insert_by, sort_by, All-sort_by}
use katalog_manager.Chapters.Title.{
  Chapter, precedes, clean_chapter, written, has_chapters, Row, rows_of, comes_before, chapters_in,
}
use katalog_manager.Chapters.Title.Clean.{clean_title_idem}

-- Two that follow each other are not in the wrong order.
abbrev pub InOrder : List Chapter → Type 0
InOrder [] = Unit
InOrder (c ∷ []) = Unit
InOrder (c ∷ d ∷ cs) = (precedes d c ≡ false) × InOrder (d ∷ cs)

abbrev RowsInOrder : List Row → Type 0
RowsInOrder [] = Unit
RowsInOrder (r ∷ []) = Unit
RowsInOrder (r ∷ q ∷ rows) = (comes_before q r ≡ false) × RowsInOrder (q ∷ rows)

comes_before_asym : (r q : Row) → comes_before r q ≡ true → comes_before q r ≡ false
unfolding comes_before precedes
comes_before_asym r q h = ground arith

insert_after :
    (q r : Row) (rows : List Row)
    → comes_before r q ≡ false
    → RowsInOrder (q ∷ rows)
    → RowsInOrder (q ∷ insert_by comes_before r rows)
unfolding insert_by
insert_after q r [] h o = (h, tt)
insert_after q r (x ∷ rows) h o = elim (Bool-cases (comes_before x r)) [
  | inl e ↦ rw e (o.0, insert_after x r rows (comes_before_asym x r e) o.1)
  | inr e ↦ rw e (h, (e, o.1))
]

insert_by-RowsInOrder :
    (r : Row) (rows : List Row) → RowsInOrder rows → RowsInOrder (insert_by comes_before r rows)
unfolding insert_by
insert_by-RowsInOrder r [] o = tt
insert_by-RowsInOrder r (q ∷ rows) o = elim (Bool-cases (comes_before q r)) [
  | inl e ↦ rw e (insert_after q r rows (comes_before_asym q r e) o)
  | inr e ↦ rw e (e, o)
]

sort_by-RowsInOrder : (rows : List Row) → RowsInOrder (sort_by comes_before rows)
unfolding sort_by
sort_by-RowsInOrder [] = tt
sort_by-RowsInOrder (r ∷ rows) =
    insert_by-RowsInOrder r (sort_by comes_before rows) (sort_by-RowsInOrder rows)

precedes-none : (r q : Row) → comes_before q r ≡ false → precedes q.chapter r.chapter ≡ false
unfolding comes_before
precedes-none r q h = ground arith

chapters_in-InOrder : (rows : List Row) → RowsInOrder rows → InOrder (chapters_in rows)
chapters_in-InOrder [] o = tt
chapters_in-InOrder (r ∷ []) o = tt
chapters_in-InOrder (r ∷ q ∷ rows) o = (precedes-none r q o.0, chapters_in-InOrder (q ∷ rows) o.1)

abbrev pub IsClean : Chapter → Type 0
IsClean c = clean_chapter c ≡ c

clean_chapter-IsClean : (c : Chapter) → IsClean (clean_chapter c)
clean_chapter-IsClean c = ap (λ t. record c { title = t }) (clean_title_idem c.title)

RowIsClean : Row → Type 0
RowIsClean r = IsClean r.chapter

rows_of-RowIsClean : (ids : ℕ → ℕ) (cs : List Chapter) → All RowIsClean (rows_of ids cs)
unfolding rows_of RowIsClean
rows_of-RowIsClean ids [] = tt
rows_of-RowIsClean ids (c ∷ cs) =
    (clean_chapter-IsClean c, rows_of-RowIsClean (λ i. ids (suc i)) cs)

chapters_in-IsClean : (rows : List Row) → All RowIsClean rows → All IsClean (chapters_in rows)
unfolding RowIsClean
chapters_in-IsClean [] a = tt
chapters_in-IsClean (r ∷ rows) a = (a.0, chapters_in-IsClean rows a.1)

-- Whatever ids are drawn, what was written comes back in order, with clean titles.
pub written-InOrder : (ids : ℕ → ℕ) (cs : List Chapter) → InOrder (written ids cs)
unfolding written
written-InOrder ids cs =
    chapters_in-InOrder (sort_by comes_before (rows_of ids cs))
      (sort_by-RowsInOrder (rows_of ids cs))

pub written-IsClean : (ids : ℕ → ℕ) (cs : List Chapter) → All IsClean (written ids cs)
unfolding written
written-IsClean ids cs =
    chapters_in-IsClean (sort_by comes_before (rows_of ids cs))
      (All-sort_by RowIsClean comes_before (rows_of ids cs) (rows_of-RowIsClean ids cs))

-- Each chapter comes before the next by its ordinal and its start.
abbrev pub AreDistinct : List Chapter → Type 0
AreDistinct [] = Unit
AreDistinct (c ∷ []) = Unit
AreDistinct (c ∷ d ∷ cs) = (precedes c d ≡ true) × AreDistinct (d ∷ cs)

tail-AreDistinct : (c : Chapter) (cs : List Chapter) → AreDistinct (c ∷ cs) → AreDistinct cs
tail-AreDistinct c [] o = tt
tail-AreDistinct c (d ∷ cs) o = o.1

precedes-comes_before : (r q : Row) → precedes r.chapter q.chapter ≡ true → comes_before q r ≡ false
unfolding comes_before precedes
precedes-comes_before r q h = ground arith

insert_by-first :
    (ids : ℕ → ℕ) (id : ℕ) (c : Chapter) (cs : List Chapter)
    → AreDistinct (c ∷ cs)
    → All IsClean cs
    → insert_by comes_before (record { id = id; chapter = c }) (rows_of ids cs)
      ≡ record { id = id; chapter = c } ∷ rows_of ids cs
unfolding insert_by rows_of
insert_by-first ids id c [] o a = refl
insert_by-first ids id c (d ∷ cs) o a =
    rw
      (precedes-comes_before (record { id = id; chapter = c })
        (record { id = ids 0; chapter = clean_chapter d }) (rw (a.0) (o.0)))
      refl

sort_by-rows_of :
    (ids : ℕ → ℕ) (cs : List Chapter)
    → AreDistinct cs
    → All IsClean cs
    → sort_by comes_before (rows_of ids cs) ≡ rows_of ids cs
unfolding sort_by rows_of
sort_by-rows_of ids [] o a = refl
sort_by-rows_of ids (c ∷ cs) o a =
    rw (sort_by-rows_of (λ i. ids (suc i)) cs (tail-AreDistinct c cs o) a.1)
      (rw (a.0) (insert_by-first (λ i. ids (suc i)) (ids 0) c cs o a.1))

chapters_in-rows_of :
    (ids : ℕ → ℕ) (cs : List Chapter) → All IsClean cs → chapters_in (rows_of ids cs) ≡ cs
unfolding rows_of
chapters_in-rows_of ids [] a = refl
chapters_in-rows_of ids (c ∷ cs) a = rw (a.0, chapters_in-rows_of (λ i. ids (suc i)) cs a.1) refl

-- Clean chapters that their ordinals and starts tell apart are read back as they were written.
pub written-AreDistinct :
    (ids : ℕ → ℕ) (cs : List Chapter) → AreDistinct cs → All IsClean cs → written ids cs ≡ cs
unfolding written
written-AreDistinct ids cs o a =
    ap chapters_in (sort_by-rows_of ids cs o a) ∙ chapters_in-rows_of ids cs a

has_chapters-insert_by :
    (r : Row) (rows : List Row) → has_chapters (chapters_in (insert_by comes_before r rows)) ≡ true
unfolding insert_by
has_chapters-insert_by r [] = refl
has_chapters-insert_by r (q ∷ rows) = elim (Bool-cases (comes_before q r)) [
  | inl e ↦ rw e refl
  | inr e ↦ rw e refl
]

-- There are chapters when there were some to write.
pub has_chapters-written :
    (ids : ℕ → ℕ) (cs : List Chapter) → has_chapters (written ids cs) ≡ has_chapters cs
unfolding written sort_by rows_of
has_chapters-written ids [] = refl
has_chapters-written ids (c ∷ cs) =
    has_chapters-insert_by (record { id = ids 0; chapter = clean_chapter c })
      (sort_by comes_before (rows_of (λ i. ids (suc i)) cs))
