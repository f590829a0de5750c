-- ===== src/Chapters/Marks/Timed.antt =====
-- internal/chapters/records.go: the chapters that are read of marks have a length, are numbered, and are
-- written and read back as they are.
use katalog_manager.Base.{
  ℕ, suc, ◌+◌, ◌^◌, ◌≤◌, ◌<◌, ◌≡◌, refl, ap, inl, inr, true, false, Option, none, some, List, [],
  ◌∷◌, length, All, Bool-cases, Option-cases, arith,
}
use katalog_manager.Base.Text.{Text}
use katalog_manager.Base.Backoff.{lt_int64}
use katalog_manager.Chapters.Title.{Chapter, clean_title, precedes, written}
use katalog_manager.Chapters.Title.Clean.{clean_title_idem}
use katalog_manager.Chapters.Title.Kept.{AreDistinct, IsClean, written-AreDistinct}
use katalog_manager.Chapters.Marks.{
  Mark, chapters_of, chapters_from, chapter_of, chapter_at, chapter_between, max_int64, stop_of,
}
use katalog_manager.Chapters.Report.{is_bad_range, first_bad}

-- A chapter of a mark: its range, its number and its title.
record IsChapter (n : ℕ) (c : Chapter) : Type 0 where
  range : is_bad_range c ≡ false
  number : c.ordinal ≡ suc n
  clean : IsClean c

max_int64-not_negative : (s : ℕ) → lt_int64 (max_int64 s 0) 0 ≡ false
max_int64-not_negative s = ground arith

the : Option Chapter → Chapter → Chapter
the none c = c
the (some d) c = d

some_inj : (c d : Chapter) → some c ≡ some d → c ≡ d
unfolding the
some_inj c d h = ap (λ (o : Option Chapter). the o c) h

made-IsChapter :
    (n start stop : ℕ) (title : Option Text)
    → lt_int64 start 0 ≡ false
    → lt_int64 start stop ≡ true
    → IsChapter n
        (record { start_ms = start; end_ms = stop; title = clean_title title; ordinal = suc n })
made-IsChapter n start stop title p q = record {
  range = rw (p, q) refl;
  number = refl;
  clean =
      ap
        (λ (t : Option Text). record {
          start_ms = start;
          end_ms = stop;
          title = t;
          ordinal = suc n;
        })
        (clean_title_idem title);
}

chapter_between-IsChapter :
    (n start : ℕ) (title : Option Text) (stop : Option ℕ) (c : Chapter)
    → lt_int64 start 0 ≡ false
    → chapter_between n start title stop ≡ some c
    → IsChapter n c
unfolding chapter_between
chapter_between-IsChapter n start title none c p h = cc
chapter_between-IsChapter n start title (some stop) c p h =
    elim (Bool-cases (lt_int64 start stop)) [
      | inl e ↦ rw⁻¹ (some_inj _ c (rw e at h)) (made-IsChapter n start stop title p e)
      | inr e ↦ cc (h, e)
    ]

chapter_at-IsChapter :
    (marks : List Mark) (end : Option ℕ) (n : ℕ) (m : Mark) (start : Option ℕ) (c : Chapter)
    → chapter_at marks end n m start ≡ some c
    → IsChapter n c
chapter_at-IsChapter marks end n m none c h = cc
chapter_at-IsChapter marks end n m (some s) c h =
    chapter_between-IsChapter n (max_int64 s 0) m.title (stop_of marks end s m.end) c
      (max_int64-not_negative s) h

chapter_of-IsChapter :
    (marks : List Mark) (end : Option ℕ) (n : ℕ) (m : Mark) (c : Chapter)
    → chapter_of marks end n m ≡ some c
    → IsChapter n c
unfolding chapter_of
chapter_of-IsChapter marks end n m c h = chapter_at-IsChapter marks end n m m.start c h

-- From the n-th on, each is a chapter with its number.
AreChapters : ℕ → List Chapter → Type 0
AreChapters n [] = Unit
AreChapters n (c ∷ cs) = IsChapter n c × AreChapters (suc n) cs

module _ (marks : List Mark) (end : Option ℕ) (n : ℕ) (m : Mark) (ms : List Mark) where
  chapters_from-skip :
      chapter_of marks end n m ≡ none
      → chapters_from marks end n (m ∷ ms) ≡ chapters_from marks end n ms
  unfolding chapters_from
  chapters_from-skip e = rw (e, chapters_from) refl

  chapters_from-add :
      (c : Chapter)
      → chapter_of marks end n m ≡ some c
      → chapters_from marks end n (m ∷ ms) ≡ c ∷ chapters_from marks end (suc n) ms
  unfolding chapters_from
  chapters_from-add c e = rw (e, chapters_from) refl

none_from :
    (marks : List Mark) (end : Option ℕ) (n : ℕ) → AreChapters n (chapters_from marks end n [])
unfolding AreChapters chapters_from
none_from marks end n = tt

chapters_from-AreChapters :
    (marks : List Mark) (end : Option ℕ) (n : ℕ) (ms : List Mark)
    → AreChapters n (chapters_from marks end n ms)
unfolding AreChapters
chapters_from-AreChapters marks end n [] = none_from marks end n
chapters_from-AreChapters marks end n (m ∷ ms) = elim (Option-cases (chapter_of marks end n m)) [
  | inl e ↦ rw (chapters_from-skip marks end n m ms e) (chapters_from-AreChapters marks end n ms)
  | inr (c, e) ↦
      rw (chapters_from-add marks end n m ms c e)
        (chapter_of-IsChapter marks end n m c e, chapters_from-AreChapters marks end (suc n) ms)
]

first_bad-none : (n i : ℕ) (cs : List Chapter) → AreChapters n cs → first_bad i cs ≡ none
unfolding first_bad AreChapters
first_bad-none n i [] a = refl
first_bad-none n i (c ∷ cs) (h, a) = rw h.range (first_bad-none (suc n) (suc i) cs a)

map-AreChapters : (n : ℕ) (cs : List Chapter) → AreChapters n cs → All IsClean cs
unfolding AreChapters
map-AreChapters n [] a = tt
map-AreChapters n (c ∷ cs) (h, a) = (h.clean, map-AreChapters (suc n) cs a)

numbered :
    (n : ℕ) (c d : Chapter)
    → n + 2 < 2 ^ 31
    → c.ordinal ≡ suc n
    → d.ordinal ≡ suc (suc n)
    → precedes c d ≡ true
unfolding precedes
numbered n c d small p q = rw (p, q) (ground (arith, small))

AreChapters-AreDistinct :
    (n : ℕ) (cs : List Chapter) → n + length cs < 2 ^ 31 → AreChapters n cs → AreDistinct cs
unfolding AreChapters
AreChapters-AreDistinct n [] small a = tt
AreChapters-AreDistinct n (c ∷ []) small a = tt
AreChapters-AreDistinct n (c ∷ d ∷ cs) small (h, (g, a)) = (
  numbered n c d (omega (arith, small)) h.number g.number,
  AreChapters-AreDistinct (suc n) (d ∷ cs) (omega (arith, small)) (g, a),
)

written-AreChapters :
    (ids : ℕ → ℕ) (n : ℕ) (cs : List Chapter)
    → n + length cs < 2 ^ 31
    → AreChapters n cs
    → written ids cs ≡ cs
written-AreChapters ids n cs small a =
    written-AreDistinct ids cs (AreChapters-AreDistinct n cs small a) (map-AreChapters n cs a)

length-none-le :
    (marks : List Mark) (end : Option ℕ) (n : ℕ) → length (chapters_from marks end n []) ≤ 0
unfolding chapters_from
length-none-le marks end n = omega arith

length-chapters_from-le :
    (marks : List Mark) (end : Option ℕ) (n : ℕ) (ms : List Mark)
    → length (chapters_from marks end n ms) ≤ length ms
length-chapters_from-le marks end n [] = length-none-le marks end n
length-chapters_from-le marks end n (m ∷ ms) = elim (Option-cases (chapter_of marks end n m)) [
  | inl e ↦
      rw (chapters_from-skip marks end n m ms e)
        (omega (arith, length-chapters_from-le marks end n ms))
  | inr (c, e) ↦
      rw (chapters_from-add marks end n m ms c e)
        (omega (arith, length-chapters_from-le marks end (suc n) ms))
]

-- The chapters of fewer than 2^31 marks, whatever the marks are, have each a range 0 <= start < end, as a
-- report's chapters must; and written to the catalog they are read back as they are, in the order of
-- the marks, with their titles, whatever ids are drawn for them.
pub chapters_of-written :
    (marks : List Mark) (end : Option ℕ)
    → length marks < 2 ^ 31
    → (first_bad 1 (chapters_of marks end) ≡ none)
      × ((ids : ℕ → ℕ) → written ids (chapters_of marks end) ≡ chapters_of marks end)
unfolding chapters_of
chapters_of-written marks end small =
    let a = chapters_from-AreChapters marks end 0 marks in
    let chs = chapters_from marks end 0 marks in
    (
      first_bad-none 0 1 chs a,
      λ ids.
          written-AreChapters ids 0 chs
            (omega (arith, small, length-chapters_from-le marks end 0 marks)) a,
    )
