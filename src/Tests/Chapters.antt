-- ===== src/Tests/Chapters.antt =====
-- Cases of the chapters' theorems.
use katalog_manager.Base.{
  ℕ, ◌*◌, ◌-◌, ◌≡◌, refl, true, false, ◌||◌, Option, none, some, List, [], ◌∷◌, arith,
}
use katalog_manager.Base.Backoff.{doubled, double_while}
use katalog_manager.Base.Choice.{sort_by, insert_by}
use katalog_manager.Base.Text.{codes, trim_space, trim_left, trim_right, is_space}
use katalog_manager.Picture.Area.{hour}
use katalog_manager.Chapters.Title.{
  Chapter, written, has_chapters, same, same_chapter, same_title, is_apart, clean_title, clean_text,
  clean_rune, map_runes, cut_title, precedes, rows_of, comes_before,
}
use katalog_manager.Chapters.Title.Kept.{IsClean, AreDistinct}
use katalog_manager.Chapters.Read.{
  Read, state_failed, Replaced, by_admin, Kept, new_read, settles, held_of, of_source, backoff,
  add_one,
}
use katalog_manager.Chapters.Read.Settled.{needs_original, view_settles, settles-view_settles}
use katalog_manager.Chapters.Take.{RecordRead, says, take, is_other}
use katalog_manager.Chapters.Take.Keeps.{IsUndoable}
use katalog_manager.Chapters.Take.Fewer.{NoLoss}
use katalog_manager.Chapters.Marks.{
  Mark, Probe, chapters_of, chapters_from, interpret, interpret_marks, end_of, read_of, is_nonempty,
}
use katalog_manager.Chapters.Marks.Timed.{chapters_of-written}
use katalog_manager.Chapters.Marks.Nothing.{EndsAfter, interpret-EndsAfter}
use katalog_manager.Chapters.Report.{Report, Files, state, leaves, outcome_of, first_bad}
use katalog_manager.Chapters.Record.{
  record_kept, record_report, record_taken, answer_of, answers, movie, transient_failure,
}
use katalog_manager.Chapters.Record.Claims.{owns}
use katalog_manager.Chapters.Record.Ends.{Ends, record_report-Ends}
use katalog_manager.Chapters.Record.Failures.{Stands, record_kept-Stands}
use katalog_manager.Chapters.Record.Fewer.{record_kept-NoLoss}
use katalog_manager.Chapters.Record.Unreadable.{
  fail_all, is_unreadable, fail_all-readable, transient_failure-counts,
}
use katalog_manager.Chapters.Record.Updates.{Call, failed}
use katalog_manager.Chapters.FromRecord.{from_record_kept, take_record}
use katalog_manager.Chapters.FromRecord.Settled.{from_record_kept-needs_original}
use katalog_manager.Chapters.Decisions.{done, revert_kept}
use katalog_manager.Chapters.Decisions.Back.{revert_kept-revert_kept}
use katalog_manager.Chapters.Steps.{reported}
use katalog_manager.Chapters.Steps.Undo.{Step-IsUndoable}

abbrev opening : Chapter
opening = record { start_ms = 0; end_ms = 60000; title = some (codes "Opening"); ordinal = 1 }

abbrev ending : Chapter
ending = record { start_ms = 60000; end_ms = 90000; title = none; ordinal = 2 }

-- The ids that the database draws.
abbrev drawn : ℕ → ℕ
drawn i = i

-- The title's first row, and one with a chapter of the original 2.
abbrev fresh : Kept
fresh = record { row = new_read 0; chapters = []; ids = drawn }

abbrev of_two : Kept
of_two = record {
  row = record (new_read 0) { rows_source = some 2 };
  chapters = opening ∷ [];
  ids = drawn;
}

abbrev found_two : Report
found_two = record {
  read = record {
    path = codes "/m";
    source_id = some 3;
    file_size = none;
    found = some 2;
    error = codes "";
    transient = false;
    note = codes "";
    probe = codes "";
    seconds = none;
  };
  chapters = some (opening ∷ ending ∷ []);
  token = codes "t";
  released = false;
}

abbrev broken : Report
broken = record found_two {
  read = record found_two.read { error = codes "no header"; found = none };
  chapters = none;
}

abbrev source_three : Option ℕ × Option ℕ
source_three = (some 3, none)

-- A report of another original's chapters, without a claim.
abbrev pass : Report
pass = record found_two { token = codes "" }

record_kept-NoLoss_example :
    NoLoss
      (some 2)
      (some 3)
      (opening ∷ [])
      (record_kept pass source_three none none 5 of_two).chapters
record_kept-NoLoss_example = record_kept-NoLoss pass source_three none none 5 of_two

Step-IsUndoable_example : IsUndoable of_two (record_kept pass source_three none none 5 of_two)
Step-IsUndoable_example =
    Step-IsUndoable of_two (record_kept pass source_three none none 5 of_two)
      (reported pass source_three none none 5 of_two)

settles-view_settles_example :
    settles (record (new_read 0) { rows_source = some 2 }) (some 2) true
    ≡ view_settles (some (record (new_read 0) { rows_source = some 2 })) 2 true
settles-view_settles_example =
    settles-view_settles (record (new_read 0) { rows_source = some 2 }) 2 true

-- The source record of original 3 holds two chapters.
abbrev two_chapters : RecordRead
two_chapters = record {
  path = codes "/s";
  found = 2;
  chapters = opening ∷ ending ∷ [];
  note = codes "";
  held = codes "";
  why = codes "";
  err = none;
}

two_chapters_settle : (from_record_kept 3 true two_chapters 5 of_two).0 ≡ true
unfolding from_record_kept take_record held_of of_source settles says take is_other same
    same_chapter same_title is_apart clean_title clean_text clean_rune map_runes cut_title
    trim_space trim_left trim_right is_space new_read
two_chapters_settle = refl

from_record_kept-needs_original_example :
    needs_original none
      (some (from_record_kept 3 true two_chapters 5 of_two).1.row)
      (some 3)
      (from_record_kept 3 true two_chapters 5 of_two).1.chapters
      none
    ≡ false
from_record_kept-needs_original_example =
    from_record_kept-needs_original 3 true two_chapters 5 of_two none none two_chapters_settle

-- A title that a run has handed out, under the token t.
abbrev claimed : Read
claimed = record (new_read 0) {
  claimed_at = some 1;
  claimed_by = some (codes "w");
  claim_token = some (codes "t");
}

abbrev no_files : Files
no_files = record { sources = []; versions = []; assets = [] }

abbrev reported_title : Kept
reported_title =
    record_taken (λ s. two_chapters) (λ s. none) no_files found_two 5
      (record { row = claimed; chapters = []; ids = drawn })

reported_answers :
    record_report
      (λ s. two_chapters)
      (λ s. none)
      no_files
      (some movie)
      found_two
      5
      (some claimed)
      []
      drawn
    ≡ answers reported_title
unfolding record_report answer_of state outcome_of first_bad trim_space trim_left trim_right
    is_space
reported_answers = refl

record_report-Ends_example : Ends (owns (trim_space (codes "t")) claimed) claimed reported_title.row
record_report-Ends_example =
    record_report-Ends (λ s. two_chapters) (λ s. none) no_files (some movie) found_two 5
      (some claimed) [] drawn reported_title reported_answers

broken_fails : state broken ≡ leaves state_failed
unfolding state trim_space trim_left trim_right is_space
broken_fails = refl

record_kept-Stands_example :
    ((record_kept broken source_three none none 5 of_two).chapters ≡ opening ∷ [])
    × ((settles of_two.row (some 3) true || held_of of_two.row (some 3)) ≡ true
        → Stands (some 3) true of_two.row (record_kept broken source_three none none 5 of_two).row)
record_kept-Stands_example = record_kept-Stands broken source_three none none 5 of_two broken_fails

-- Calls at a time, of no claim.
abbrev call_at : ℕ → Call
call_at now = record {
  own = false;
  lapse = false;
  source = some 3;
  size = none;
  path = codes "/m";
  probe = codes "";
  found = 0;
  seconds = none;
  now = now;
}

fail_all-readable_example :
    is_unreadable
      (fail_all ((call_at 10, codes "a") ∷ (call_at (2 * hour), codes "b") ∷ []) (new_read 0)).state
    ≡ false
unfolding new_read
fail_all-readable_example =
    fail_all-readable 0 ((call_at 10, codes "a") ∷ (call_at (2 * hour), codes "b") ∷ [])
      (new_read 0) refl refl (omega arith)

-- Two failures are counted: the next is not before three hours.
abbrev twice_failed : Read
twice_failed = record (new_read 0) {
  state = state_failed;
  failures = 2;
  next_attempt = some (3 * hour);
}

hour_waits : backoff (add_one 0) ≡ hour
unfolding backoff doubled double_while
hour_waits = refl

transient_failure-counts_example :
    ((failed (call_at (2 * hour)) (codes "b") twice_failed).failures ≡ 2)
    × ((failed
          (call_at (2 * hour))
          (codes "b")
          (transient_failure (call_at hour) (codes "s") twice_failed)).failures
        ≡ add_one 2)
unfolding new_read
transient_failure-counts_example =
    transient_failure-counts (call_at hour) (call_at (2 * hour)) (codes "b") (codes "s")
      twice_failed (3 * hour) refl refl refl (omega (arith, hour_waits)) (omega arith)

abbrev two_marks : List Mark
two_marks =
    record { start = some 0; end = none; title = some (codes "Opening") }
    ∷ record { start = some 60000; end = none; title = none }
    ∷ []

chapters_of-written_example :
    (first_bad 1 (chapters_of two_marks (some 90000)) ≡ none)
    × ((ids : ℕ → ℕ)
        → written ids (chapters_of two_marks (some 90000)) ≡ chapters_of two_marks (some 90000))
chapters_of-written_example = chapters_of-written two_marks (some 90000) (omega arith)

-- A probe of a file without a mark.
abbrev no_marks : Probe
no_marks = record { chapters = some []; duration = some 90000; start_time = none; streams = [] }

no_marks_said : says (interpret no_marks) ≡ true
unfolding says interpret interpret_marks chapters_of chapters_from read_of
no_marks_said = refl

no_marks_none : has_chapters (interpret no_marks).chapters ≡ false
unfolding interpret interpret_marks chapters_of chapters_from read_of
no_marks_none = refl

interpret-EndsAfter_example :
    (marks : List Mark) × (no_marks.chapters ≡ some marks)
    × (is_nonempty marks ≡ true → EndsAfter marks (end_of no_marks))
interpret-EndsAfter_example = interpret-EndsAfter no_marks no_marks_said no_marks_none

-- The title's chapter, and the two kept to undo.
abbrev kept_two : Replaced
kept_two = record { at = 4; by = by_admin; source = some 2; chapters = opening ∷ ending ∷ [] }

abbrev undoable : Kept
undoable = record {
  row = record (new_read 0) { replaced = some kept_two; rows_source = some 3 };
  chapters = opening ∷ [];
  ids = drawn;
}

opening-IsClean : IsClean opening
unfolding clean_title clean_text clean_rune map_runes cut_title trim_space trim_left trim_right
    is_space
opening-IsClean = refl

ending-IsClean : IsClean ending
unfolding clean_title
ending-IsClean = refl

in_turn-AreDistinct : AreDistinct (opening ∷ ending ∷ [])
unfolding precedes
in_turn-AreDistinct = (refl, tt)

-- Two chapters of one ordinal and start come back in the order of the ids drawn for them.
by_ids :
    (written (λ i. i) (opening ∷ record opening { title = none } ∷ [])
      ≡ opening ∷ record opening { title = none } ∷ [])
    × (written (λ i. 1 - i) (opening ∷ record opening { title = none } ∷ [])
        ≡ record opening { title = none } ∷ opening ∷ [])
unfolding written rows_of comes_before sort_by insert_by precedes clean_title clean_text clean_rune
    map_runes cut_title trim_space trim_left trim_right is_space
by_ids = (refl, refl)

one_of_two : same (opening ∷ []) (opening ∷ ending ∷ []) ≡ false
unfolding same same_chapter same_title is_apart clean_title clean_text clean_rune map_runes
    cut_title trim_space trim_left trim_right is_space
one_of_two = refl

two_of_one : same (opening ∷ ending ∷ []) (opening ∷ []) ≡ false
unfolding same same_chapter same_title is_apart clean_title clean_text clean_rune map_runes
    cut_title trim_space trim_left trim_right is_space
two_of_one = refl

revert_kept-revert_kept_example :
    (once : Kept) × (twice : Kept) × (revert_kept (some 3) (codes "a") 6 undoable ≡ done once)
    × (once.chapters ≡ opening ∷ ending ∷ [])
    × (revert_kept (some 3) (codes "a") 7 once ≡ done twice)
    × (twice.chapters ≡ opening ∷ [])
revert_kept-revert_kept_example =
    revert_kept-revert_kept (some 3) (some 3) (codes "a") (codes "a") 6 7 undoable kept_two refl
      refl refl in_turn-AreDistinct (opening-IsClean, (ending-IsClean, tt)) tt (opening-IsClean, tt)
      one_of_two two_of_one
