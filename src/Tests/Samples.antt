-- ===== src/Tests/Samples.antt =====
-- The policy, the reports and the tables of the cases.
use katalog_manager.Base.{
  ℕ, true, false, Option, none, some, List, [], ◌∷◌, map, length, ◌≡◌, refl, arith,
}
use katalog_manager.Base.Text.{Text, codes}
use katalog_manager.Processing.Vocab.{Step, Status, failed, transcode, pack, tidb}
use katalog_manager.Processing.Policy.{Policy, IsValid}
use katalog_manager.Processing.Table.{Row, Report}
use katalog_manager.Processing.Steps.{Steps}
use katalog_manager.Retry.Queue.{Facts, present}
use katalog_manager.Retry.Claim.{Catalog, Claimed}
use katalog_manager.Retry.Dispatch.{Message}

-- Three runs, waits of 10 and 15, a timeout of 100.
abbrev pub three_runs : Policy
three_runs = record {
  max_attempts = 3;
  backoff = 10;
  backoff_max = 15;
  timeouts = λ s. none;
  default_timeout = 100;
}

pub three_runs-IsValid : IsValid three_runs
three_runs-IsValid = record { positive = omega arith; ordered = omega arith; bounded = omega arith }

abbrev pub report_of : Status → Report
report_of s = record { status = s; error = none; details = none }

-- A step of title 7 as it is enqueued.
abbrev pub row_of_step : ℕ → Step → Status → Row
row_of_step id s w = record {
  id = id;
  item = 7;
  step = s;
  status = w;
  created = some 1;
  modified = some 1;
  started = none;
  finished = none;
  attempts = some 0;
  error = none;
  details = none;
  failures = 0;
  last_error = none;
  next_retry = none;
  dispatched = none;
}

-- A step that failed once, its retry due at 20.
abbrev pub failed_once : Row
failed_once = record (row_of_step 1 tidb failed) { failures = 1; next_retry = some 20 }

abbrev pub chain_rows : List Row
chain_rows = row_of_step 1 transcode failed ∷ row_of_step 2 pack failed ∷ []

abbrev pub steps_of : List Row → Steps
steps_of rows = record { rows = rows; migrated = true; legacy = false; policy = three_runs }

-- Every item is there, with its original and no disc image.
abbrev pub catalog : Catalog
catalog = record {
  type_of = λ i. some 0;
  original_gone = λ i. false;
  disc_image = λ i. false;
  held = λ i. false;
}

abbrev pub same_text : Text → Text
same_text t = t

-- A publisher that takes every message.
abbrev pub takes_all : List Message → List (Option Text)
takes_all ms = map (λ m. none) ms

pub takes_all-length : (ms : List Message) → length (takes_all ms) ≡ length ms
takes_all-length [] = refl
takes_all-length (m ∷ ms) = omega (arith, takes_all-length ms)

abbrev pub claimed_tidb : Claimed
claimed_tidb = record { id = 1; item = 7; step = tidb; item_type = some 0; was = failed }

-- Every title has a file and its original.
abbrev pub facts : Facts
facts = record {
  new_arrival = codes "put it in again";
  title_of = λ i. record {
    typ = some (codes "movie");
    file = true;
    disc = false;
    original = present;
    original_why = [];
  };
  blocked_as = λ i. none;
}
