-- ===== src/Retry/Dispatch.antt =====
-- internal/retry/retry.go: dispatch, which sends the trigger event of each claimed step, one for each
-- item and topic, and puts back the steps whose event could not be sent.
pub mod Conserve
pub mod Addresses
use katalog_manager.Base.{
  ℕ, ◌+◌, Bool, ◌&&◌, Option, none, some, List, [], ◌∷◌, ◌++◌, any, length, is_some, ltb, ◌==◌,
  if◌then◌else◌,
}
use mathlib.Core.Option
use katalog_manager.Base.Text.{Text}
use katalog_manager.Base.Backoff.{lt_int64}
use katalog_manager.Processing.Vocab.{failed}
use katalog_manager.Processing.Table.{Row, update_where}
use katalog_manager.Retry.Trigger.{Topic, Next, discovered, enriched, analyzed, transcoded, trigger}
use katalog_manager.Retry.Claim.{Claimed}

-- How the events are marked: a retry's, or a re-encode's.
pub data Mark : Type 0 where
  as_retry as_reencode : Mark

-- A message, and the claimed steps that it is sent for (msgs and of). An event carries the type and
-- the next step of the first of them.
pub record Message : Type 0 where
  pub item : ℕ
  pub topic : Option Topic
  pub next : Option Next
  pub item_type : Option ℕ
  pub mark : Mark
  pub members : List Claimed

abbrev pub topic_num : Option Topic → ℕ
topic_num none = 0
topic_num (some discovered) = 1
topic_num (some enriched) = 2
topic_num (some analyzed) = 3
topic_num (some transcoded) = 4

-- The topic of a step's trigger; none where it has none, Go's "".
unfoldable pub topic_of : Claimed → Option Topic
unfolding trigger
topic_of c = Option.map (λ t. t.0) (trigger c.step)

-- The messages have one key: item and topic.
unfoldable pub goes_by : Claimed → Message → Bool
unfolding topic_of
goes_by c m = m.item == c.item && topic_num m.topic == topic_num (topic_of c)

unfoldable pub message_of : Mark → Claimed → Message
unfolding topic_of trigger
message_of how c = record {
  item = c.item;
  topic = topic_of c;
  next = Option.map (λ t. t.1) (trigger c.step);
  item_type = c.item_type;
  mark = how;
  members = c ∷ [];
}

-- The body of the first loop: a step joins the message of its key, or starts one.
unfoldable pub add_to : Mark → Claimed → List Message → List Message
unfolding goes_by message_of
add_to how c [] = message_of how c ∷ []
add_to how c (m ∷ ms) =
    if goes_by c m then record m { members = m.members ++ (c ∷ []) } ∷ ms else m ∷ add_to how c ms

unfoldable pub group_from : Mark → List Message → List Claimed → List Message
unfolding add_to
group_from how ms [] = ms
group_from how ms (c ∷ cs) = group_from how (add_to how c ms) cs

-- What the second loop gathers.
pub record Outcome : Type 0 where
  pub sent : ℕ
  pub items : ℕ
  pub not_sent : List Claimed
  pub first : Option Text

abbrev pub nothing_sent : Outcome
nothing_sent = record { sent = 0; items = 0; not_sent = []; first = none }

abbrev pub first_error : Option Text → Text → Option Text
first_error none e = some e
first_error (some f) e = some f

-- The body of the second loop, with the items seen so far.
unfoldable pub settle : List ℕ → Outcome → Message → Option Text → List ℕ × Outcome
settle seen o m none =
    let counted = any (λ i. i == m.item) seen in
    (
      if counted then seen else m.item ∷ seen,
      record o {
        sent = o.sent + length m.members;
        items = if counted then o.items else o.items + 1;
      },
    )
settle seen o m (some e) =
    (seen, record o { not_sent = o.not_sent ++ m.members; first = first_error o.first e })

-- for i, err := range errs
unfoldable pub settle_all : List ℕ → Outcome → List Message → List (Option Text) → Outcome
unfolding settle
settle_all seen o (m ∷ ms) (e ∷ es) =
    let (seen', o') = settle seen o m e in settle_all seen' o' ms es
settle_all seen o ms es = o

-- What a step whose event could not be sent is set to: failed, and retried after again, an int64, if that
-- is above 0.
unfoldable pub put_back_set : ℕ → Text → ℕ → Row → Row
put_back_set now says again r = record r {
  status = failed;
  finished = some now;
  modified = some now;
  error = some says;
  next_retry = if lt_int64 0 again then some (now + again) else none;
  dispatched = none;
}

-- id = ANY(back) AND dispatchedat IS NOT NULL
abbrev pub is_back : List Claimed → Row → Bool
is_back cs r = any (λ c. c.id == r.id) cs && is_some r.dispatched

unfoldable pub put_back : ℕ → Text → ℕ → List Claimed → List Row → List Row
unfolding put_back_set
put_back now says again [] rows = rows
put_back now says again (c ∷ cs) rows =
    (update_where (is_back (c ∷ cs)) (put_back_set now says again) rows).0

-- dispatch: publish answers the messages' errors (Publisher), says words what a step not sent is told,
-- and back_off is the policy's Backoff.
unfoldable pub dispatch :
    (List Message → List (Option Text))
    → (Option Text → Text)
    → Mark
    → ℕ
    → Bool
    → ℕ
    → List Claimed
    → List Row
    → List Row × Outcome
unfolding group_from settle_all put_back
dispatch publish says how now automatic back_off [] rows = (rows, nothing_sent)
dispatch publish says how now automatic back_off (c ∷ cs) rows =
    let msgs = group_from how [] (c ∷ cs) in
    let o = settle_all [] nothing_sent msgs (publish msgs) in
    (put_back now (says o.first) (if automatic then back_off else 0) o.not_sent rows, o)
