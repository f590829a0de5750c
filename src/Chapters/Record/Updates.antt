-- ===== src/Chapters/Record/Updates.antt =====
-- internal/chapters/chapters.go: the updates of a title's read row that Record is made of.
use katalog_manager.Base.{
  ℕ, ◌+◌, ◌%◌, Bool, true, false, not, ◌&&◌, Option, none, some, List, length, is_some, coalesce,
  ltb, if◌then◌else◌,
}
use katalog_manager.Base.Text.{Text}
use katalog_manager.Picture.Report.{lt_int32, int32_mod}
use katalog_manager.Picture.Area.{clip, null_if_empty}
use katalog_manager.Chapters.Read.{
  Read, ReadState, state_none, state_failed, state_unreadable, state_held, Reader, from_header,
  failure, end_claim, max_backoff, settled_wait, add_one,
}

-- What the closures of Record share: whose claim the report is of, the original it read and its size,
-- what it says of the file, and the time.
pub record Call : Type 0 where
  pub own : Bool
  pub lapse : Bool
  pub source : Option ℕ
  pub size : Option ℕ
  pub path : Text
  pub probe : Text
  pub found : ℕ
  pub seconds : Option ℕ
  pub now : ℕ

-- only
unfoldable pub only : Call → Text → Read → Read
unfolding end_claim clip
only c why k = record (end_claim c.own c.lapse k) {
  reason = coalesce (null_if_empty (clip 500 why)) k.reason;
  modified = c.now;
}

abbrev is_failure : ReadState → Bool
is_failure state_failed = true
is_failure state_unreadable = true
is_failure _ = false

abbrev is_before : ℕ → Option ℕ → Bool
is_before now none = false
is_before now (some t) = ltb now t

-- A failure within the last one's backoff, which failed counts no more.
unfoldable pub is_counted : ℕ → Read → Bool
is_counted now k = lt_int32 0 k.failures && is_failure k.state && is_before now k.next_attempt

-- failed
unfoldable pub failed : Call → Text → Read → Read
failed c why k =
    let k' = end_claim c.own c.lapse k in
    let f = add_one k.failures in
    let (state, next, reason) = failure f why c.now in
    if is_counted c.now k
    then record k' { reason = some (clip 500 why); read_at = some c.now; modified = c.now }
    else record k' {
      state = state;
      read_from = some from_header;
      confirmed = false;
      source = c.source;
      path = some c.path;
      file_size = c.size;
      found = none;
      written = none;
      probe = null_if_empty c.probe;
      seconds = c.seconds;
      reason = some reason;
      read_at = some c.now;
      failures = f;
      transients = 0;
      next_attempt = some next;
      modified = c.now;
    }

abbrev pub max_int32 : ℕ → ℕ → ℕ
max_int32 a b = if lt_int32 a b then b else a

-- int32(len(xs))
abbrev pub count_of {ℓ} : {A : Type ℓ} → List A → ℕ
count_of xs = length xs % int32_mod

abbrev is_none : ReadState → Bool
is_none state_none = true
is_none _ = false

-- A source that is set as the record's when the record was read.
abbrev pub recorded_source : Bool → Option ℕ → Option ℕ
recorded_source recorded source = if recorded then source else none

unfoldable pub kept_record_source : Bool → Option ℕ → Bool → Option ℕ → Option ℕ
kept_record_source recorded source unconfirmed kept =
    if is_some (recorded_source recorded source) then source else if unconfirmed then none else kept

-- keep: what a read found.
unfoldable pub keep :
    Call → ReadState → Reader → Bool → Text → Text → ℕ → Option ℕ → Text → Bool → Read → Read
unfolding kept_record_source end_claim clip
keep c state from confirmed read_path read_probe written secs reason recorded k =
    let unconfirmed = is_none state && not confirmed in
    let by_record = is_some (recorded_source recorded c.source) in
    record (end_claim c.own c.lapse k) {
      state = state;
      read_from = some from;
      confirmed = confirmed;
      source = c.source;
      path = some (clip 2048 read_path);
      file_size = c.size;
      found = some (max_int32 c.found written);
      written = some written;
      probe = null_if_empty (clip 200 read_probe);
      seconds = secs;
      reason = null_if_empty (clip 500 reason);
      read_at = some c.now;
      failures = 0;
      transients = 0;
      next_attempt = some (c.now + (if unconfirmed then max_backoff else settled_wait));
      record_source = kept_record_source recorded c.source unconfirmed k.record_source;
      record_at = if by_record then some c.now else k.record_at;
      record_note = if by_record then none else k.record_note;
      modified = c.now;
    }

-- hold: an admin decides.
unfoldable pub hold : Call → Text → Bool → Read → Read
unfolding end_claim clip
hold c why recorded k = record (end_claim c.own c.lapse k) {
  state = state_held;
  source = c.source;
  path = some c.path;
  found = some c.found;
  written = none;
  reason = some (clip 500 why);
  read_at = some c.now;
  failures = 0;
  transients = 0;
  next_attempt = none;
  record_source = coalesce (recorded_source recorded c.source) k.record_source;
  record_at = if is_some (recorded_source recorded c.source) then some c.now else k.record_at;
  modified = c.now;
}
