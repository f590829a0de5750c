-- ===== src/Picture/Claim.antt =====
-- internal/picture/backfill.go: Claim, which hands out the next titles to measure, at the pace of the
-- settings. Times are in nanoseconds.
pub mod Cases
pub mod Pace
pub mod Answer
pub mod Free
pub mod Accounts
use katalog_manager.Base.{
  ℕ, zero, suc, ◌+◌, ◌-◌, ◌*◌, ◌/◌, Bool, true, false, not, ◌&&◌, Option, none, some, List, [], ◌∷◌,
  ◌++◌, min, max, count, is_some, ltb, leb, ◌==◌, if◌then◌else◌,
}
use katalog_manager.Base.Text.{Text, codes, trim_space, is_empty}
use katalog_manager.Picture.Area.{hour, clip}
use katalog_manager.Picture.Window.{minute, contains, closes, opens}
use katalog_manager.Picture.Settings.{Settings}
use katalog_manager.Picture.Backfill.{
  second, Entry, Title, find_entry, expire, fail, claim_title, TitleType,
}
use katalog_manager.Picture.Candidates.{Current, candidates, within}

pub record Job : Type 0 where
  pub id : ℕ
  pub item : ℕ
  pub is_extra : Bool
  pub of_type : TitleType
  pub path : Text
  pub duration : Option ℕ
  pub token : Text
  pub costly_runs : ℕ
  pub last : Bool

-- Why a claim hands out none.
pub data Why : Type 0 where
  is_off outside_window rate_is_0 none_left nothing_found : Why
  in_flight rate_reached : ℕ → Why

-- Claim; none is no deadline, and nothing to wait for.
pub record Claim : Type 0 where
  pub items : List Job
  pub deadline : Option ℕ
  pub idle_for : Option Why
  pub retry_after : ℕ

-- idle; the seconds are rounded.
unfoldable pub idle : Why → ℕ → Claim
idle why after = record {
  items = [];
  deadline = none;
  idle_for = some why;
  retry_after = max 1 ((after + second / 2) / second);
}

-- What fileOf, which looks at the disk, says of a title.
pub data FileOf : Type 0 where
  at missing : Text → FileOf

-- What a claim reads besides the areas: the titles, the current areas and the costs' doubts, the files,
-- the tokens that are drawn, and the text of a lease that ended.
pub record Catalog : Type 0 where
  pub titles : List Title
  pub current : List Current
  pub costs : Entry → Bool
  pub file_of : Title → FileOf
  pub token : Title → Text
  pub late : ℕ → Text

-- The query's counts: claimed, handed out in the last hour, and the first of these.
abbrev pub is_claimed : Entry → Bool
is_claimed e = is_some e.area.claimed_at

abbrev pub is_recent : ℕ → Entry → Bool
is_recent now e = within hour now e.last_claimed

abbrev pub inflight : List Entry → ℕ
inflight es = count is_claimed es

abbrev pub recent : ℕ → List Entry → ℕ
recent now es = count (is_recent now) es

abbrev earlier : Option ℕ → Option ℕ → Option ℕ
earlier none o = o
earlier (some s) none = some s
earlier (some s) (some t) = some (min s t)

unfoldable pub oldest : ℕ → List Entry → Option ℕ
oldest now [] = none
oldest now (e ∷ es) =
    let rest = oldest now es in if is_recent now e then earlier e.last_claimed rest else rest

-- oldest + an hour - now, or a minute
abbrev pub until_room : ℕ → Option ℕ → ℕ
until_room now none = minute
until_room now (some t) = t + hour - now

-- The runs' deadline, and whether it is the lease's whole.
abbrev pub sooner : Option ℕ → ℕ → ℕ × Bool
sooner none lease_end = (lease_end, true)
sooner (some c) lease_end = if ltb c lease_end then (c, false) else (lease_end, true)

unfoldable pub deadline_of : Settings → ℕ → ℕ × Bool
unfolding closes
deadline_of s now = sooner (closes s.window now) (now + s.lease)

abbrev costly_runs_of : Option Entry → ℕ
costly_runs_of none = 0
costly_runs_of (some e) = e.area.costly_runs

abbrev job_of : Catalog → List Entry → Bool → Title → Text → Job
job_of c es whole t path =
    let costly = costly_runs_of (find_entry t.id es) in
    record {
      id = t.id;
      item = t.item;
      is_extra = t.is_extra;
      of_type = t.of_type;
      path = path;
      duration = t.duration;
      token = c.token t;
      costly_runs = costly;
      last = whole && leb 3 (costly + 1);
    }

abbrev nothing_to_measure : Text → Text
nothing_to_measure why = codes "nothing to measure: " ++ why

module _ (c : Catalog) (worker now : ℕ) (whole : Bool) (found : List Entry) where
  -- One candidate, of which the loop hands out n more at most after it: next is the rest of the loop.
  unfoldable pub next_title :
      Title
      → (ℕ → List Entry → List Entry × List Job)
      → ℕ
      → List Entry
      → FileOf
      → List Entry × List Job
  unfolding fail claim_title
  next_title t next n es (missing why) = next (suc n) (fail t (nothing_to_measure why) now es)
  next_title t next n es (at path) =
      let (es', jobs) = next n (claim_title t worker (c.token t) now es) in
      (es', job_of c found whole t path ∷ jobs)

  -- The loop over the candidates, found by the query among the rows as they were; n titles are left to
  -- hand out.
  unfoldable pub hand_out : List Title → ℕ → List Entry → List Entry × List Job
  unfolding next_title
  hand_out [] n es = (es, [])
  hand_out (t ∷ ts) zero es = (es, [])
  hand_out (t ∷ ts) (suc n) es = next_title t (λ m es'. hand_out ts m es') n es (c.file_of t)

-- The answer when candidates are there, or are not.
abbrev answer : List Title → ℕ → List Job → Claim
answer [] deadline [] = idle none_left hour
answer (t ∷ ts) deadline [] = idle nothing_found minute
answer ts deadline (j ∷ jobs) = record {
  items = j ∷ jobs;
  deadline = some deadline;
  idle_for = none;
  retry_after = 0;
}

-- The rest of Claim, once the leases that ended are expired.
unfoldable pub claim_at_pace :
    Catalog → Settings → ℕ → ℕ → Text → ℕ → List Entry → List Entry × Claim
unfolding candidates hand_out deadline_of oldest idle
claim_at_pace c s worker limit method now es =
    let n = min (min (max limit 1) (s.inflight - inflight es)) (s.rate - recent now es) in
    let ts = candidates c.costs c.current (clip 32 (trim_space method)) now (n * 8) es c.titles in
    let (deadline, whole) = deadline_of s now in
    let (es', jobs) = hand_out c worker now whole es ts n es in
    if leb s.inflight (inflight es)
    then (es, idle (in_flight (inflight es)) minute)
    else if leb s.rate (recent now es)
    then (es, idle (rate_reached (recent now es)) (until_room now (oldest now es)))
    else (es', answer ts deadline jobs)

-- Claim
unfoldable pub claim : Catalog → Settings → ℕ → ℕ → Text → ℕ → List Entry → List Entry × Claim
unfolding claim_at_pace expire idle
claim c s worker limit method now es =
    if not s.on
    then (es, idle is_off (15 * minute))
    else if not (contains s.window now)
    then (es, idle outside_window (opens s.window now - now))
    else if s.rate == 0
    then (es, idle rate_is_0 (15 * minute))
    else claim_at_pace c s worker limit method now (expire c.late s.lease now es)
