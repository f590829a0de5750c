-- ===== src/Chapters/HandOut/Turn.antt =====
-- internal/chapters/backfill.go: handOut, whole: its pace, its deadline and its answer.
use katalog_manager.Base.{
  ℕ, zero, suc, ◌+◌, ◌-◌, ◌*◌, Bool, true, false, not, ◌||◌, Option, none, some, List, [], ◌∷◌, min,
  max, keep, count, is_some, ltb, leb, ◌==◌, if◌then◌else◌,
}
use katalog_manager.Base.Text.{Text}
use katalog_manager.Picture.Area.{hour}
use katalog_manager.Picture.Window.{minute, closes}
use katalog_manager.Chapters.HandOut.{
  Settings, Entry, Handed, Tables, Missing, Look, Job, expire, waiting, look_for,
}

-- Why none is handed out.
pub data Why : Type 0 where
  rate_is_0 storage_silent none_missing nothing_found : Why
  in_flight rate_reached none_ready : ℕ → Why

pub data Answer : Type 0 where
  idle : Why → ℕ → Answer
  hands : List Job → ℕ → Answer

abbrev pub is_claimed : Entry → Bool
is_claimed e = is_some e.read.claimed_at

abbrev pub is_recent : ℕ → Handed → Bool
is_recent now h = ltb now (h.at + hour)

abbrev pub inflight : Tables → ℕ
inflight ts = count is_claimed ts.reads

abbrev pub recent : ℕ → Tables → ℕ
recent now ts = count (is_recent now) ts.claims

abbrev earlier : ℕ → Option ℕ → Option ℕ
earlier t none = some t
earlier t (some s) = some (min t s)

unfoldable pub oldest : ℕ → List Handed → Option ℕ
oldest now [] = none
oldest now (h ∷ hs) =
    let rest = oldest now hs in if is_recent now h then earlier h.at rest else rest

abbrev until_room : ℕ → Option ℕ → ℕ
until_room now none = minute
until_room now (some t) = t + hour - now

-- The rows of more than two days are deleted.
unfoldable pub forget : ℕ → List Handed → List Handed
forget now hs = keep (λ h. not (ltb (h.at + 48 * hour) now)) hs

abbrev pub sooner : Option ℕ → ℕ → ℕ
sooner none lease_end = lease_end
sooner (some c) lease_end = if ltb c lease_end then c else lease_end

-- The answer of a hand-out; silent says that a read of this claim was not answered.
unfoldable pub answer : Bool → ℕ → List Missing → ℕ → List Job → Answer
answer silent missing cs deadline (j ∷ js) = hands (j ∷ js) deadline
answer true missing cs deadline [] = idle storage_silent minute
answer false zero cs deadline [] = idle none_missing hour
answer false (suc m) [] deadline [] = idle (none_ready (suc m)) (15 * minute)
answer false (suc m) (c ∷ cs) deadline [] = idle nothing_found minute

abbrev pub jobs_of : Answer → List Job
jobs_of (idle why after) = []
jobs_of (hands js deadline) = js

-- What a hand-out reads besides: the titles that miss their chapters, what the looks find, the tokens
-- that are drawn, the text of a lease that ended, and whether the claim's reads stalled before.
pub record Catalog : Type 0 where
  pub titles : List Missing
  pub missing : ℕ
  pub look : Missing → Look
  pub token : Missing → Text
  pub lost : Text
  pub stalled : Bool

-- The end of handOut, when there is room for n titles.
unfoldable pub hand_out_n : Catalog → Settings → Text → ℕ → ℕ → Tables → Tables × Answer
hand_out_n c s worker n now ts =
    let cs = waiting (s.records == 0) now (n * 8) ts.reads c.titles in
    let o = look_for c.look c.token worker now cs n ts in
    (
      o.tables,
      answer (c.stalled || o.unanswered) c.missing cs (sooner (closes s.window now) (now + s.lease))
          o.jobs,
    )

unfoldable pub hand_out_at : Catalog → Settings → Text → ℕ → ℕ → Tables → Tables × Answer
hand_out_at c s worker limit now ts =
    if leb s.inflight (inflight ts)
    then (ts, idle (in_flight (inflight ts)) minute)
    else if leb s.rate (recent now ts)
    then (ts, idle (rate_reached (recent now ts)) (until_room now (oldest now ts.claims)))
    else hand_out_n c s worker
        (min (min (max limit 1) (s.inflight - inflight ts)) (s.rate - recent now ts)) now ts

-- The leases that ended are expired, and the claims of more than two days forgotten.
abbrev pub renewed : Catalog → Settings → ℕ → Tables → Tables
renewed c s now ts = record {
  reads = expire c.lost s.lease now ts.reads;
  claims = forget now ts.claims;
}

-- handOut
unfoldable pub hand_out : Catalog → Settings → Text → ℕ → ℕ → Tables → Tables × Answer
hand_out c s worker limit now ts =
    if s.rate == 0
    then (ts, idle rate_is_0 (15 * minute))
    else hand_out_at c s worker limit now (renewed c s now ts)
