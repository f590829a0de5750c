-- ===== src/Chapters/Title.antt =====
-- internal/chapters/chapters.go and records.go: a chapter as the catalog keeps it, its title
-- (CleanTitle), how a title's chapters are written and read back (Replace, Of), and when two readings
-- are the same chapters (same). An int64 or an int32 is its pattern, with the signed order.
pub mod Clean
pub mod Kept
use katalog_manager.Base.{
  ℕ, zero, suc, ◌+◌, ◌-◌, ◌*◌, ◌/◌, ◌%◌, Bool, true, false, not, ◌&&◌, ◌||◌, Option, none, some,
  List, [], ◌∷◌, ◌++◌, map, length, take, ltb, ◌==◌, if◌then◌else◌,
}
use katalog_manager.Base.Text.{Text, trim_space, is_empty}
use katalog_manager.Base.Backoff.{lt_int64, int64_mod}
use katalog_manager.Base.Choice.{sort_by}
use katalog_manager.Picture.Report.{lt_int32}
use katalog_manager.Picture.Area.{same_text, null_if_empty}

-- Chapter
pub record Chapter : Type 0 where
  pub start_ms : ℕ
  pub end_ms : ℕ
  pub title : Option Text
  pub ordinal : ℕ

abbrev pub title_max : ℕ
title_max = 120

-- What CleanTitle makes of a character: none is one it leaves out.
unfoldable pub clean_rune : ℕ → Option ℕ
clean_rune c =
    if ltb c 0x20 || c == 0x7f
    then if c == 9 || c == 10 || c == 13 then some 32 else none
    else some c

abbrev cons : Option ℕ → Text → Text
cons none t = t
cons (some c) t = c ∷ t

-- strings.Map
unfoldable pub map_runes : (ℕ → Option ℕ) → Text → Text
map_runes f [] = []
map_runes f (c ∷ s) = cons (f c) (map_runes f s)

-- Its cut: s is trimmed already.
unfoldable pub cut_title : Text → Text
cut_title s = if ltb title_max (length s) then trim_space (take title_max s) else s

-- CleanTitle, of a text that is valid UTF-8, as those are that the JSON of a report and the columns of
-- the catalog give.
unfoldable pub clean_text : Text → Text
unfolding map_runes clean_rune cut_title
clean_text t = cut_title (trim_space (map_runes clean_rune t))

unfoldable pub clean_title : Option Text → Option Text
unfolding clean_text
clean_title none = none
clean_title (some t) = null_if_empty (clean_text t)

-- The order of Of, but for the ids: by ordinal, then by start.
unfoldable pub precedes : Chapter → Chapter → Bool
precedes a b =
    lt_int32 a.ordinal b.ordinal
    || (not (lt_int32 b.ordinal a.ordinal) && lt_int64 a.start_ms b.start_ms)

abbrev pub clean_chapter : Chapter → Chapter
clean_chapter c = record c { title = clean_title c.title }

-- A row of the chapters' table.
pub record Row : Type 0 where
  pub id : ℕ
  pub chapter : Chapter

-- The rows that Replace writes, with the ids that the database draws for them in turn.
unfoldable pub rows_of : (ℕ → ℕ) → List Chapter → List Row
unfolding clean_title
rows_of ids [] = []
rows_of ids (c ∷ cs) =
    record { id = ids 0; chapter = clean_chapter c } ∷ rows_of (λ i. ids (suc i)) cs

-- The order of Of: of two chapters with the same ordinal and start, by the ids.
unfoldable pub comes_before : Row → Row → Bool
unfolding precedes
comes_before a b =
    precedes a.chapter b.chapter || (not (precedes b.chapter a.chapter) && ltb a.id b.id)

abbrev pub chapters_in : List Row → List Chapter
chapters_in rows = map (λ r. r.chapter) rows

-- Replace, with the ids that are drawn, and then Of.
unfoldable pub written : (ℕ → ℕ) → List Chapter → List Chapter
unfolding rows_of comes_before
written ids chs = chapters_in (sort_by comes_before (rows_of ids chs))

-- Two titles as the catalog keeps them.
unfoldable pub same_title : Option Text → Option Text → Bool
same_title none none = true
same_title none (some b) = false
same_title (some a) none = false
same_title (some a) (some b) = same_text a b

-- d < -1 || d > 1, of the difference of two int64 values
unfoldable pub is_apart : ℕ → ℕ → Bool
is_apart a b = let d = (a + int64_mod - b) % int64_mod in lt_int64 d (int64_mod - 1) || lt_int64 1 d

unfoldable pub same_chapter : Chapter → Chapter → Bool
unfolding is_apart same_title clean_title
same_chapter a b =
    not (is_apart a.start_ms b.start_ms) && same_title (clean_title a.title) (clean_title b.title)

-- same
unfoldable pub same : List Chapter → List Chapter → Bool
unfolding same_chapter
same [] [] = true
same [] (b ∷ bs) = false
same (a ∷ rest) [] = false
same (a ∷ rest) (b ∷ bs) = same_chapter a b && same rest bs

abbrev pub has_chapters : List Chapter → Bool
has_chapters [] = false
has_chapters (c ∷ cs) = true
