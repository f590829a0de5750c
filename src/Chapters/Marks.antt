-- ===== src/Chapters/Marks.antt =====
-- internal/chapters/records.go: the chapters of a source record's probe. The probe is taken as it is
-- decoded, its times as the function ms reads them (floating-point seconds, in ms): int64 patterns.
pub mod Timed
pub mod Nothing
use katalog_manager.Base.{
  ℕ, zero, suc, ◌+◌, ◌-◌, ◌%◌, Bool, true, false, not, ◌&&◌, ◌||◌, Option, none, some, List, [],
  ◌∷◌, ◌++◌, length, ltb, ◌==◌, if◌then◌else◌,
}
use katalog_manager.Base.Text.{Text, codes}
use katalog_manager.Base.Backoff.{lt_int64, int64_mod}
use katalog_manager.Chapters.Title.{Chapter, clean_title, has_chapters}
use katalog_manager.Chapters.Read.{decimal}
use katalog_manager.Chapters.Take.{RecordRead}
use katalog_manager.Chapters.Record.Updates.{count_of}

-- mark
pub record Mark : Type 0 where
  pub start : Option ℕ
  pub end : Option ℕ
  pub title : Option Text

-- The smaller of a time and one that may be none: *n.start < *stop, of none stop is n.start.
abbrev sooner : ℕ → Option ℕ → Option ℕ
sooner s none = some s
sooner s (some t) = if lt_int64 s t then some s else some t

-- The start of a mark that comes after start, if that is sooner than stop. A mark does not start after
-- itself: j is never i.
abbrev later : ℕ → Option ℕ → Option ℕ → Option ℕ
later start none stop = stop
later start (some s) stop = if lt_int64 start s then sooner s stop else stop

unfoldable pub next_start : ℕ → Option ℕ → List Mark → Option ℕ
next_start start stop [] = stop
next_start start stop (m ∷ ms) = next_start start (later start m.start stop) ms

-- The end, where it is given, unless stop is sooner.
abbrev sooner_end : Option ℕ → Option ℕ → Option ℕ
sooner_end none stop = stop
sooner_end (some e) stop = sooner e stop

unfoldable pub stop_of : List Mark → Option ℕ → ℕ → Option ℕ → Option ℕ
stop_of marks end start (some e) = some e
stop_of marks end start none = sooner_end end (next_start start none marks)

abbrev pub max_int64 : ℕ → ℕ → ℕ
max_int64 a b = if lt_int64 a b then b else a

unfoldable pub chapter_between : ℕ → ℕ → Option Text → Option ℕ → Option Chapter
chapter_between n start title none = none
chapter_between n start title (some stop) =
    if lt_int64 start stop
    then some
        (record { start_ms = start; end_ms = stop; title = clean_title title; ordinal = suc n })
    else none

abbrev pub chapter_at : List Mark → Option ℕ → ℕ → Mark → Option ℕ → Option Chapter
chapter_at marks end n m none = none
chapter_at marks end n m (some s) =
    chapter_between n (max_int64 s 0) m.title (stop_of marks end s m.end)

-- The chapter of a mark, when n are out already.
unfoldable pub chapter_of : List Mark → Option ℕ → ℕ → Mark → Option Chapter
chapter_of marks end n m = chapter_at marks end n m m.start

unfoldable pub chapters_from : List Mark → Option ℕ → ℕ → List Mark → List Chapter
chapters_from marks end n [] = []
chapters_from marks end n (m ∷ ms) = elim (chapter_of marks end n m) [
  | none ↦ chapters_from marks end n ms
  | some c ↦ c ∷ chapters_from marks end (suc n) ms
]

-- chaptersOf
unfoldable pub chapters_of : List Mark → Option ℕ → List Chapter
chapters_of marks end = chapters_from marks end 0 marks

-- pastEnd
abbrev starts_past : ℕ → Option ℕ → Bool
starts_past end none = false
starts_past end (some s) = not (lt_int64 s end)

unfoldable pub past_end : List Mark → ℕ → Bool
past_end [] end = false
past_end (m ∷ ms) end = starts_past end m.start || past_end ms end

abbrev hour_ms : ℕ
hour_ms = 3600000

-- shifted, its loop: none where a mark has no start, lies outside the file or out of order.
unfoldable pub shift_marks : ℕ → ℕ → List Mark → Option (List Mark)
shift_marks end prev [] = some []
shift_marks end prev (m ∷ ms) = elim m.start [
  | none ↦ none
  | some start ↦
      let s = (start + int64_mod - hour_ms) % int64_mod in
      let shifted_mark : Mark = record { start = some s; end = none; title = m.title } in
      if lt_int64 s 0 || not (lt_int64 s end) || not (lt_int64 prev s)
      then none
      else elim (shift_marks end s ms) [ none ↦ none | some rest ↦ some (shifted_mark ∷ rest) ]
]

abbrev pub shifted_of : ℕ → ℕ → Option (List Mark) → Option (List Chapter)
shifted_of end n none = none
shifted_of end n (some out) =
    let chs = chapters_of out (some end) in if length chs == n then some chs else none

unfoldable pub shifted : List Mark → ℕ → Option (List Chapter)
shifted marks end = shifted_of end (length marks) (shift_marks end (int64_mod - 1) marks)

-- A probe: its chapters (none: it holds no chapters list), and the times of its format and streams.
pub record Probe : Type 0 where
  pub chapters : Option (List Mark)
  pub duration : Option ℕ
  pub start_time : Option ℕ
  pub streams : List (Option ℕ)

abbrev is_positive : Option ℕ → Bool
is_positive none = false
is_positive (some n) = lt_int64 0 n

abbrev longer : Option ℕ → Option ℕ → Option ℕ
longer none end = end
longer (some d) none = if lt_int64 0 d then some d else none
longer (some d) (some e) = if lt_int64 0 d && lt_int64 e d then some d else some e

unfoldable pub longest : Option ℕ → List (Option ℕ) → Option ℕ
longest end [] = end
longest end (d ∷ ds) = longest (longer d end) ds

abbrev plus_start : ℕ → Option ℕ → ℕ
plus_start d none = d
plus_start d (some s) = if lt_int64 0 s then (d + s) % int64_mod else d

-- The file's end.
abbrev end_of_file : Option ℕ → Option ℕ → List (Option ℕ) → Option ℕ
end_of_file none start streams = longest none streams
end_of_file (some d) start streams =
    if lt_int64 0 d then some (plus_start d start) else longest none streams

unfoldable pub end_of : Probe → Option ℕ
end_of p = end_of_file p.duration p.start_time p.streams

unfoldable pub read_of : ℕ → List Chapter → Text → Text → RecordRead
read_of found chs note held = record {
  path = [];
  found = found;
  chapters = chs;
  note = note;
  held = held;
  why = [];
  err = none;
}

unfoldable pub count_note : ℕ → Text → Text
count_note n text = codes "its " ++ (decimal n ++ text)

unfoldable pub left_out_note : ℕ → ℕ → Text
left_out_note left marks =
    decimal left
    ++ (codes " of " ++ (decimal marks ++ codes " chapter marks have no length, left out"))

abbrev pub read_shifted : List Mark → Option (List Chapter) → RecordRead
read_shifted marks none = read_of (count_of marks) [] [] (
    count_note (length marks) (
      codes
        " chapter marks lie past the file's end, and do not fit it an hour earlier: an admin decides"))
read_shifted marks (some chs) =
    read_of (count_of marks) chs
      (count_note (length marks)
        (codes " chapter marks lay an hour past their places: read 3600 s earlier"))
      []

-- interpret, where every mark is left out and there are some.
unfoldable pub interpret_none : List Mark → Option ℕ → RecordRead
interpret_none marks none = read_of (count_of marks) [] [] (
    count_note (length marks) (
      codes
        " chapter marks have no length, and its probe gives no length of the file: an admin decides"))
interpret_none marks (some end) =
    if past_end marks end
    then read_shifted marks (shifted marks end)
    else read_of (count_of marks) [] (left_out_note (length marks) (length marks)) []

abbrev left_note : ℕ → ℕ → Text
left_note left marks = if left == 0 then [] else left_out_note left marks

abbrev pub is_nonempty : List Mark → Bool
is_nonempty [] = false
is_nonempty (m ∷ ms) = true

unfoldable pub interpret_marks : List Mark → Option ℕ → RecordRead
interpret_marks marks end =
    let chs = chapters_of marks end in
    if not (has_chapters chs) && is_nonempty marks
    then interpret_none marks end
    else read_of (count_of marks) chs (left_note (length marks - length chs) (length marks)) []

abbrev pub interpret_list : Option (List Mark) → Option ℕ → RecordRead
interpret_list none end = record (read_of 0 [] [] []) {
  why = codes "its source record's probe holds no chapters list";
}
interpret_list (some marks) end = interpret_marks marks end

-- interpret, of a probe that is JSON; its path is set by the caller.
unfoldable pub interpret : Probe → RecordRead
interpret p = interpret_list p.chapters (end_of p)
