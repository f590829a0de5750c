-- ===== src/Retry/Queue/Finish.antt =====
-- internal/retry/queue.go: finishSent, which ends the titles whose package or transcode is over.
use katalog_manager.Base.{
  ℕ, ◌+◌, Bool, true, false, not, ◌&&◌, ◌||◌, Option, none, some, List, [], ◌∷◌, ◌++◌, is_some,
  if◌then◌else◌, coalesce,
}
use mathlib.Core.Option
use katalog_manager.Base.Text.{Text, codes}
use katalog_manager.Processing.Vocab
use katalog_manager.Processing.Vocab.{Status, transcode, pack, is_failed}
use katalog_manager.Processing.Table.{Row, find_row}
use katalog_manager.Retry.Queue.{Entry, QueueState, done, failed, is_sent, left_500}

-- status = 'failed' AND nextretryat IS NULL; false for no row.
abbrev pub failed_for_good : Option Row → Bool
failed_for_good none = false
failed_for_good (some r) = is_failed r.status && not (is_some r.next_retry)

abbrev pub package_done : Option Row → Bool
package_done none = false
package_done (some r) = elim r.status [ Vocab.done ↦ true | _ ↦ false ]

abbrev pub passed_over : Status → Bool
passed_over Vocab.skipped = true
passed_over Vocab.not_applicable = true
passed_over _ = false

abbrev pub package_passed_over : Option Row → Bool
package_passed_over none = false
package_passed_over (some r) = passed_over r.status

-- COALESCE(error, lasterror, 'no error given')
abbrev pub error_given : Option Row → Text
error_given none = codes "no error given"
error_given (some r) = elim (coalesce r.error r.last_error) [
  | none ↦ codes "no error given"
  | some e ↦ e
]

-- replace(status, '_', ' ') || COALESCE(': ' || error, ''), of a status that is passed over
abbrev passed_over_words : Status → Text
passed_over_words Vocab.skipped = codes "skipped"
passed_over_words _ = codes "not applicable"

abbrev colon_error : Option Text → Text
colon_error none = []
colon_error (some e) = codes ": " ++ e

abbrev passed_over_reason : Option Row → Text
passed_over_reason none = []
passed_over_reason (some r) = codes "package " ++ passed_over_words r.status ++ colon_error r.error

-- The WHERE of ends.
unfoldable pub is_ended : Option Row → Option Row → Bool
is_ended t p =
    package_done p
    || package_passed_over p
    || failed_for_good t
    || failed_for_good p
    || (not (is_some t) && not (is_some p))

-- The CASE of ends: why the title failed, none when it is done.
unfoldable pub end_reason : Option Row → Option Row → Option Text
end_reason t p =
    if package_done p
    then none
    else if failed_for_good t
    then some (codes "transcode failed: " ++ error_given t)
    else if failed_for_good p
    then some (codes "package failed: " ++ error_given p)
    else if package_passed_over p
    then some (passed_over_reason p)
    else some (codes "its transcode and package are gone")

-- What the UPDATE sets.
unfoldable pub end_entry : ℕ → Option Text → Entry → Entry
end_entry now reason q = record q {
  state = if is_some reason then failed else done;
  done_at = some now;
  reason = Option.map left_500 reason;
}

abbrev pub ends : (Entry → Bool) → List Row → Entry → Bool
ends held rows q =
    is_sent q
    && is_ended (find_row q.item transcode rows) (find_row q.item pack rows)
    && not (held q)

-- An entry after it.
unfoldable pub finish_entry : (Entry → Bool) → ℕ → List Row → Entry → Entry
unfolding is_ended end_reason end_entry
finish_entry held now rows q =
    if ends held rows q
    then end_entry now (end_reason (find_row q.item transcode rows) (find_row q.item pack rows)) q
    else q

-- The counts of the titles returned.
unfoldable pub count_end : Bool → QueueState → ℕ × ℕ → ℕ × ℕ
count_end false s (d, f) = (d, f)
count_end true done (d, f) = (d + 1, f)
count_end true s (d, f) = (d, f + 1)

-- finishSent: the queue after it, and how many titles are done and failed; held are the entries that
-- another transaction holds. The titles ended go to the compliance check, which is not modelled.
unfoldable pub finish_sent : (Entry → Bool) → ℕ → List Row → List Entry → List Entry × (ℕ × ℕ)
unfolding finish_entry count_end
finish_sent held now rows [] = ([], (0, 0))
finish_sent held now rows (q ∷ qs) =
    let (rest, counts) = finish_sent held now rows qs in
    let q' = finish_entry held now rows q in
    (q' ∷ rest, count_end (ends held rows q) q'.state counts)
