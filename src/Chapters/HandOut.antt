-- ===== src/Chapters/HandOut.antt =====
-- internal/chapters/backfill.go: handOut, which hands the titles whose records can't say out to a worker,
-- with the leases that ended (expire) and the titles that it finds no original of (transient).
pub mod Turn
pub mod Pace
pub mod Ready
use katalog_manager.Base.{
  ℕ, zero, suc, ◌+◌, ◌-◌, ◌*◌, ◌/◌, Bool, true, false, not, ◌&&◌, ◌||◌, Option, none, some, List,
  [], ◌∷◌, ◌++◌, map, min, max, keep, count, is_some, ltb, leb, ◌==◌, if◌then◌else◌,
}
use katalog_manager.Base.Text.{Text, codes}
use katalog_manager.Base.Choice.{choose}
use katalog_manager.Picture.Area.{hour}
use katalog_manager.Picture.Window.{Window, minute, closes}
use katalog_manager.Chapters.Read.{
  Read, ReadState, state_unreadable, is_held, new_read, same_source,
}
use katalog_manager.Chapters.Waits.{is_lost, expire_row, transient_row, hand_out_row}

-- Settings, but for their problems; its window is a picture.Window, or never holds.
pub record Settings : Type 0 where
  pub on : Bool
  pub window : Window
  pub inflight : ℕ
  pub rate : ℕ
  pub records : ℕ
  pub lease : ℕ

-- A row of the reads' table, and one of the claims'.
pub record Entry : Type 0 where
  pub id : ℕ
  pub read : Read

pub record Handed : Type 0 where
  pub item : ℕ
  pub at : ℕ

pub record Tables : Type 0 where
  pub reads : List Entry
  pub claims : List Handed

-- A title that misses its chapters (missingSQL), with its current original.
pub record Missing : Type 0 where
  pub id : ℕ
  pub is_movie : Bool
  pub source : ℕ
  pub duration : Option ℕ
  pub packaged : Bool

abbrev pub find_read : ℕ → List Entry → Option Read
find_read id [] = none
find_read id (e ∷ es) = if e.id == id then some e.read else find_read id es

-- INSERT ... ON CONFLICT (item_id) DO UPDATE, of a change that makes the new row too.
unfoldable pub put_read : ℕ → ℕ → (Read → Read) → List Entry → List Entry
put_read id now change [] = record { id = id; read = change (new_read now) } ∷ []
put_read id now change (e ∷ es) =
    let rest = put_read id now change es in
    if e.id == id then record e { read = change e.read } ∷ es else e ∷ rest

-- expire
abbrev expire_entry : Text → ℕ → ℕ → Entry → Entry
expire_entry lost lease now e =
    if is_lost now lease e.read then record e { read = expire_row lost now e.read } else e

unfoldable pub expire : Text → ℕ → ℕ → List Entry → List Entry
expire lost lease now es = map (expire_entry lost lease now) es

abbrev pub is_unreadable : ReadState → Bool
is_unreadable state_unreadable = true
is_unreadable _ = false

abbrev pub is_due : ℕ → Option ℕ → Bool
is_due now none = true
is_due now (some t) = leb t now

-- handOutSQL's condition; any says that the catalog reads no records.
abbrev pub row_allows : Bool → ℕ → ℕ → Option Read → Bool
row_allows any now source none = any
row_allows any now source (some r) =
    (any || same_source r.record_source (some source))
    && not (is_unreadable r.state)
    && not (is_held r.state && same_source r.source (some source))
    && not (is_some r.claimed_at)
    && is_due now r.next_attempt

unfoldable pub is_ready : Bool → ℕ → List Entry → Missing → Bool
is_ready any now es t = row_allows any now t.source (find_read t.id es)

abbrev first_of : Bool → Bool → Bool → Bool
first_of a b rest = (a && not b) || (not (b && not a) && rest)

unfoldable pub goes_before : Missing → Missing → Bool
goes_before a b = first_of a.packaged b.packaged (first_of a.is_movie b.is_movie (ltb a.id b.id))

-- handOutSQL
unfoldable pub waiting : Bool → ℕ → ℕ → List Entry → List Missing → List Missing
waiting any now n es ts = choose goes_before n (is_ready any now es) ts

-- What originalOf says of a title: its file, why there is none, or that the storage did not answer: in
-- time (ErrStorageSlow), or as the look was not started (unread).
pub data Look : Type 0 where
  at absent slow unread : Text → Look

pub record Job : Type 0 where
  pub id : ℕ
  pub is_movie : Bool
  pub path : Text
  pub source : ℕ
  pub duration : Option ℕ
  pub token : Text

pub record Out : Type 0 where
  pub tables : Tables
  pub jobs : List Job
  pub unanswered : Bool

unfoldable pub pass_over : Missing → Text → ℕ → Tables → Tables
pass_over t why now ts = record ts { reads = put_read t.id now (transient_row why now) ts.reads }

unfoldable pub give : Missing → Text → Text → ℕ → Tables → Tables
give t worker token now ts = record {
  reads = put_read t.id now (hand_out_row worker token now) ts.reads;
  claims = record { item = t.id; at = now } ∷ ts.claims;
}

abbrev pub job_of : Missing → Text → Text → Job
job_of t path token = record {
  id = t.id;
  is_movie = t.is_movie;
  path = path;
  source = t.source;
  duration = t.duration;
  token = token;
}

abbrev pub add_job : Job → Out → Out
add_job j o = record o { jobs = j ∷ o.jobs }

abbrev pub no_answer : Text → Text
no_answer why = codes "nothing to read now: looking for its original: " ++ why

module _ (look : Missing → Look) (token : Missing → Text) (worker : Text) (now : ℕ) where
  -- One candidate, of which the loop hands out n more at most after it: next is the rest of the loop.
  unfoldable pub next_title : Missing → (ℕ → Tables → Out) → ℕ → Tables → Look → Out
  next_title t next n ts (slow why) = record {
    tables = pass_over t (no_answer why) now ts;
    jobs = [];
    unanswered = true;
  }
  next_title t next n ts (unread why) = record { tables = ts; jobs = []; unanswered = true }
  next_title t next n ts (absent why) =
      next (suc n) (pass_over t (codes "nothing to read: " ++ why) now ts)
  next_title t next n ts (at path) =
      add_job (job_of t path (token t)) (next n (give t worker (token t) now ts))

  -- The loop over the candidates; n titles are left to hand out.
  unfoldable pub look_for : List Missing → ℕ → Tables → Out
  look_for [] n ts = record { tables = ts; jobs = []; unanswered = false }
  look_for (t ∷ cs) zero ts = record { tables = ts; jobs = []; unanswered = false }
  look_for (t ∷ cs) (suc n) ts = next_title t (λ m ts'. look_for cs m ts') n ts (look t)
