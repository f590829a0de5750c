-- ===== src/Picture/Backfill.antt =====
-- internal/picture/backfill.go: the rows of the areas as the backfill keeps them, the claims whose lease
-- ended (expire), the failures of titles without a file (fail), and the claim of a title.
pub mod Waits
pub mod Find
use katalog_manager.Base.{
  ℕ, zero, suc, ◌+◌, ◌*◌, ◌^◌, Bool, true, false, not, ◌&&◌, ◌||◌, Option, none, some, List, [],
  ◌∷◌, map, min, is_some, ltb, leb, ◌==◌, if◌then◌else◌,
}
use katalog_manager.Base.Text.{Text, codes}
use katalog_manager.Picture.Report.{AreaState, pending, measured, unknown, failed}
use katalog_manager.Picture.Area.{hour, backoff, clip, Area}
use katalog_manager.Picture.Record.{Named, new_area}

abbrev pub second : ℕ
second = 1000000000

-- A row of the areas' table: its key, the area, and the columns that the backfill alone writes.
pub record Entry : Type 0 where
  pub id : ℕ
  pub area : Area
  pub last_claimed : Option ℕ
  pub attempts : ℕ

pub data TitleType : Type 0 where
  movie episode extra : TitleType

-- The candidate of a claim: a row of the query's titles.
pub record Title : Type 0 where
  pub id : ℕ
  pub item : ℕ
  pub is_extra : Bool
  pub of_type : TitleType
  pub duration : Option ℕ
  pub original : Bool
  pub frame : ℕ
  pub completed : Option ℕ
  pub rank : ℕ

abbrev pub find_entry : ℕ → List Entry → Option Entry
find_entry id [] = none
find_entry id (e ∷ es) = if e.id == id then some e else find_entry id es

-- INSERT ... ON CONFLICT (id) DO UPDATE
unfoldable pub put : ℕ → Entry → (Entry → Entry) → List Entry → List Entry
put id fresh change [] = fresh ∷ []
put id fresh change (e ∷ es) =
    let rest = put id fresh change es in if e.id == id then change e ∷ es else e ∷ rest

-- The row that is added for a title without one.
abbrev pub blank : Title → ℕ → Area
blank t now =
    new_area
      (record {
        of_item = not t.is_extra;
        known = true;
        covered_by = false;
        own_frame = true;
        item = t.item;
        file = record { source = none; version = none; package_id = none };
        current = false;
      })
      now

-- claimedat <= now - lease
abbrev pub has_ended : ℕ → ℕ → Option ℕ → Bool
has_ended lease now none = false
has_ended lease now (some t) = leb (t + lease) now

abbrev pub if_pending : AreaState → AreaState
if_pending pending = failed
if_pending s = s

-- Has the state no measurement: pending or failed?
abbrev pub has_none : AreaState → Bool
has_none pending = true
has_none failed = true
has_none _ = false

-- What expire sets of a claim whose lease ended; late is the reason's text.
unfoldable pub lapse : (ℕ → Text) → ℕ → ℕ → Area → Area
unfolding backoff
lapse late lease now k = record k {
  claimed_at = none;
  claimed_by = none;
  lapsed_token = k.claim_token;
  claim_token = none;
  failures = k.failures + 1;
  next_attempt = some (now + backoff (k.failures + 1));
  modified = now;
  state = if_pending k.state;
  reason = if has_none k.state then some (late lease) else k.reason;
}

-- expire
abbrev pub expire_entry : (ℕ → Text) → ℕ → ℕ → Entry → Entry
expire_entry late lease now e =
    if has_ended lease now e.area.claimed_at
    then record e { area = lapse late lease now e.area }
    else e

unfoldable pub expire : (ℕ → Text) → ℕ → ℕ → List Entry → List Entry
unfolding lapse
expire late lease now es = map (expire_entry late lease now) es

-- LEAST(first * power(2, LEAST(failures, 30)), most), in seconds
unfoldable pub sql_wait : ℕ → ℕ
sql_wait failures = second * min (3600 * 2 ^ min failures 30) 604800

-- fail
unfoldable pub fail_set : Text → ℕ → Area → Area
unfolding sql_wait clip
fail_set why now k = record k {
  state = failed;
  reason = some (clip 500 why);
  failures = k.failures + 1;
  next_attempt = some (now + sql_wait k.failures);
  modified = now;
}

unfoldable pub first_failure : Title → Text → ℕ → Entry
unfolding new_area clip backoff
first_failure t why now = record {
  id = t.id;
  area = record (blank t now) {
    state = failed;
    reason = some (clip 500 why);
    failures = 1;
    next_attempt = some (now + backoff 1);
  };
  last_claimed = none;
  attempts = 0;
}

unfoldable pub fail : Title → Text → ℕ → List Entry → List Entry
unfolding put first_failure fail_set
fail t why now es =
    put t.id (first_failure t why now) (λ e. record e { area = fail_set why now e.area }) es

-- The claim of a title: the worker's, with a new token.
abbrev pub claim_area : ℕ → Text → ℕ → Area → Area
claim_area worker token now k = record k {
  claimed_at = some now;
  claimed_by = some worker;
  claim_token = some token;
  modified = now;
}

abbrev pub claim_entry : ℕ → Text → ℕ → Entry → Entry
claim_entry worker token now e = record e {
  area = claim_area worker token now e.area;
  last_claimed = some now;
  attempts = e.attempts + 1;
}

unfoldable pub first_claim : Title → ℕ → Text → ℕ → Entry
unfolding new_area
first_claim t worker token now = record {
  id = t.id;
  area = claim_area worker token now (blank t now);
  last_claimed = some now;
  attempts = 1;
}

unfoldable pub claim_title : Title → ℕ → Text → ℕ → List Entry → List Entry
unfolding put first_claim
claim_title t worker token now es =
    put t.id (first_claim t worker token now) (claim_entry worker token now) es
