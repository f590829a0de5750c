-- ===== src/Subtitle/Cues.antt =====
-- internal/webvtt/webvtt.go: a WebVTT text with its timing lines written as WebVTT spells times
-- (fromWebVTT). timingRE's match of a line is an argument: the start, the end, and what follows them.
pub mod Counted
use katalog_manager.Base.{
  ℕ, suc, ◌+◌, Bool, true, false, not, ◌&&◌, ◌||◌, Option, none, some, List, [], ◌∷◌, ◌++◌, ltb,
  ◌==◌, if◌then◌else◌,
}
use katalog_manager.Base.Backoff.{lt_int64}
use katalog_manager.Base.Text.{Text, codes, trim_space, trim_right, is_empty}
use katalog_manager.Subtitle.Time.{millis, stamp, split}

-- isWebVTT
abbrev pub begins : Text → Text → Option Text
begins [] s = some s
begins (c ∷ t) [] = none
begins (c ∷ t) (d ∷ s) = let rest = begins t s in if c == d then rest else none

abbrev ends_header : Option Text → Bool
ends_header none = false
ends_header (some []) = true
ends_header (some (c ∷ s)) = c == 10 || c == 32 || c == 9

unfoldable pub is_webvtt : Text → Bool
is_webvtt t = ends_header (begins (codes "WEBVTT") t)

-- strings.Contains(line, "-->")
abbrev arrow_next : Text → Bool
arrow_next (b ∷ c ∷ s) = b == 45 && c == 62
arrow_next s = false

unfoldable pub holds_arrow : Text → Bool
holds_arrow [] = false
holds_arrow (c ∷ s) = (c == 45 && arrow_next s) || holds_arrow s

-- Why a text is refused, with its line, from 1.
pub data Invalid : Type 0 where
  no_header no_cue : Invalid
  no_timing bad_time ends_early : ℕ → Invalid

pub data Taken (A : Type 0) : Type 0 where
  refuses : Invalid → Taken A
  takes : A → Taken A

-- span
abbrev pub span : Text → Text → Option (ℕ × ℕ)
span from to = elim (millis from) [
  | none ↦ none
  | some start ↦ elim (millis to) [ none ↦ none | some end ↦ some (start, end) ]
]

-- The timing line as it is written.
abbrev pub timing_line : ℕ → ℕ → Text → Text
timing_line start end settings =
    stamp start ++ codes " --> " ++ stamp end ++ (if is_empty settings then [] else 32 ∷ settings)

abbrev pub prepend : Text → ℕ → Taken (List Text × ℕ) → Taken (List Text × ℕ)
prepend line n (refuses why) = refuses why
prepend line n (takes (ls, cues)) = takes (line ∷ ls, n + cues)

abbrev pub after_line : Taken Text → Taken (List Text × ℕ) → Taken (List Text × ℕ)
after_line (refuses why) rest = refuses why
after_line (takes line) rest = prepend line 1 rest

-- strings.Join(lines, "\n") + "\n"
abbrev pub ended_lines : List Text → Text
ended_lines [] = []
ended_lines (line ∷ lines) = line ++ 10 ∷ ended_lines lines

abbrev pub with_cues : Taken (List Text × ℕ) → Taken (Text × ℕ)
with_cues (refuses why) = refuses why
with_cues (takes (lines, cues)) =
    if cues == 0 then refuses no_cue else takes (ended_lines lines, cues)

module _ (timing : Text → Option (Text × Text × Text)) where
  -- A line that holds an arrow, the i-th.
  abbrev timed : ℕ → Text → Option (ℕ × ℕ) → Taken Text
  timed i settings none = refuses (bad_time i)
  timed i settings (some (start, end)) =
      if lt_int64 end start
      then refuses (ends_early i)
      else takes (timing_line start end (trim_space settings))

  abbrev matched : ℕ → Option (Text × Text × Text) → Taken Text
  matched i none = refuses (no_timing i)
  matched i (some (from, to, settings)) = timed i settings (span from to)

  unfoldable pub fix_line : ℕ → Text → Taken Text
  unfolding millis stamp
  fix_line i line = matched i (timing line)

  -- The loop over the lines, from the i-th, and how many cues it counts.
  unfoldable pub fix_lines : ℕ → List Text → Taken (List Text × ℕ)
  unfolding fix_line holds_arrow
  fix_lines i [] = takes ([], 0)
  fix_lines i (line ∷ lines) =
      let rest = fix_lines (suc i) lines in
      if holds_arrow line then after_line (fix_line i line) rest else prepend line 0 rest

  -- fromWebVTT
  unfoldable pub from_webvtt : Text → Taken (Text × ℕ)
  unfolding is_webvtt fix_lines split
  from_webvtt text =
      if not (is_webvtt text)
      then refuses no_header
      else with_cues (fix_lines 1 (split 10 (trim_right (λ c. c == 10) text)))
