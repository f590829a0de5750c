-- ===== src/Chapters/Read.antt =====
-- internal/chapters/chapters.go: a title's last read as the catalog keeps it (Read), what it settles,
-- and the waits of reads that failed. db/migrations/055_chapter_reads.sql: the titles that miss their
-- chapters. Times are in nanoseconds; a source is named by a number.
pub mod Settled
use katalog_manager.Base.{
  ℕ, zero, ◌+◌, ◌-◌, ◌*◌, ◌/◌, ◌%◌, Bool, true, false, not, ◌&&◌, ◌||◌, Option, none, some, List,
  [], ◌∷◌, ◌++◌, suc, is_some, ltb, ◌==◌, if◌then◌else◌,
}
use katalog_manager.Base.Text.{Text, codes}
use katalog_manager.Base.Backoff.{doubled}
use katalog_manager.Picture.Report.{lt_int32, add_int32}
use katalog_manager.Picture.Area.{hour, clip}
use katalog_manager.Chapters.Title.{Chapter, has_chapters}

-- The states of a title's read, and where it read the chapters from.
pub data ReadState : Type 0 where
  state_pending state_read state_none state_failed state_unreadable state_held : ReadState

pub data Reader : Type 0 where
  from_header from_record from_catalog : Reader

-- Who replaced a title's chapters: a reader, or an admin.
pub data Replacer : Type 0 where
  by_reader : Reader → Replacer
  by_admin : Replacer

-- The chapters a read replaced, kept to undo.
pub record Replaced : Type 0 where
  pub at : ℕ
  pub by : Replacer
  pub source : Option ℕ
  pub chapters : List Chapter

-- Read
pub record Read : Type 0 where
  pub state : ReadState
  pub read_from : Option Reader
  pub confirmed : Bool
  pub source : Option ℕ
  pub rows_source : Option ℕ
  pub replaced : Option Replaced
  pub path : Option Text
  pub file_size : Option ℕ
  pub found : Option ℕ
  pub written : Option ℕ
  pub probe : Option Text
  pub reason : Option Text
  pub seconds : Option ℕ
  pub read_at : Option ℕ
  pub record_source : Option ℕ
  pub record_at : Option ℕ
  pub record_note : Option Text
  pub claimed_at : Option ℕ
  pub claimed_by : Option Text
  pub claim_token : Option Text
  pub last_claimed : Option ℕ
  pub lapsed_token : Option Text
  pub lapsed_claimed : Option ℕ
  pub attempts : ℕ
  pub failures : ℕ
  pub transients : ℕ
  pub next_attempt : Option ℕ
  pub accepted_at : Option ℕ
  pub accepted_by : Option Text
  pub modified : ℕ

-- Two sources that are known and the same.
abbrev pub same_source : Option ℕ → Option ℕ → Bool
same_source none t = false
same_source (some s) none = false
same_source (some s) (some t) = s == t

-- of
unfoldable pub of_source : Read → Option ℕ → Bool
of_source r source = same_source r.source source

abbrev pub is_held : ReadState → Bool
is_held state_held = true
is_held _ = false

-- heldOf
unfoldable pub held_of : Read → Option ℕ → Bool
unfolding of_source
held_of r source = is_held r.state && of_source r source

-- settles
unfoldable pub settles : Read → Option ℕ → Bool → Bool
unfolding held_of of_source
settles r source chapters =
    if not (is_some source) || held_of r source
    then false
    else if chapters && same_source r.rows_source source
    then true
    else if not (of_source r source)
    then false
    else elim r.state [
      | state_none ↦ r.confirmed && not chapters
      | state_unreadable ↦ is_some r.accepted_at
      | _ ↦ false
    ]

-- The constants of the waits.
abbrev pub max_failures : ℕ
max_failures = 5

abbrev pub max_backoff : ℕ
max_backoff = 24 * hour

abbrev pub release_wait : ℕ
release_wait = 15 * 60000000000

abbrev pub settled_wait : ℕ
settled_wait = 24 * hour

-- backoff
unfoldable pub backoff : ℕ → ℕ
backoff n = doubled hour max_backoff (if lt_int32 0 n then n else 0)

-- strconv.Itoa of a number that is not negative; an int has 19 digits at most.
abbrev decimal_in : ℕ → ℕ → Text → Text
decimal_in zero n t = t
decimal_in (suc places) n t =
    let d = (48 + n % 10) ∷ t in
    let rest = decimal_in places (n / 10) d in if ltb n 10 then d else rest

unfoldable pub decimal : ℕ → Text
decimal n = decimal_in 19 n []

unfoldable pub unreadable_reason : ℕ → Text → Text
unfolding decimal
unreadable_reason failures why =
    decimal failures ++ codes " reads in a row failed, the last: " ++ why

-- failure: the state, the next attempt and the reason.
unfoldable pub failure : ℕ → Text → ℕ → ReadState × ℕ × Text
failure failures why now =
    let at = now + backoff failures in
    if lt_int32 failures max_failures
    then (state_failed, at, clip 500 why)
    else (state_unreadable, at, clip 500 (unreadable_reason failures why))

-- claimSQL
unfoldable pub end_claim : Bool → Bool → Read → Read
end_claim own lapse k = record k {
  claimed_at = if own then none else k.claimed_at;
  claimed_by = if own then none else k.claimed_by;
  claim_token = if own then none else k.claim_token;
  lapsed_token = if lapse then none else k.lapsed_token;
  lapsed_claimed = if lapse then none else k.lapsed_claimed;
}

-- The row that is added for a title without one.
unfoldable pub new_read : ℕ → Read
new_read now = record {
  state = state_pending;
  read_from = none;
  confirmed = false;
  source = none;
  rows_source = none;
  replaced = none;
  path = none;
  file_size = none;
  found = none;
  written = none;
  probe = none;
  reason = none;
  seconds = none;
  read_at = none;
  record_source = none;
  record_at = none;
  record_note = none;
  claimed_at = none;
  claimed_by = none;
  claim_token = none;
  last_claimed = none;
  lapsed_token = none;
  lapsed_claimed = none;
  attempts = 0;
  failures = 0;
  transients = 0;
  next_attempt = none;
  accepted_at = none;
  accepted_by = none;
  modified = now;
}

-- A title's read row, its chapters in the catalog, and the ids that the database draws next for chapters
-- of it (gen_random_uuid), which may be any.
pub record Kept : Type 0 where
  pub row : Read
  pub chapters : List Chapter
  pub ids : ℕ → ℕ

abbrev pub add_one : ℕ → ℕ
add_one n = add_int32 n 1
