-- ===== src/Retry/Queue/Enqueue.antt =====
-- internal/retry/queue.go: EnqueueReencode, which queues the titles that a request names, each once,
-- and ClearReencodeQueue.
pub mod Distinct
pub mod Once
use Prim.Native.String.{String}
use katalog_manager.Base.{
  ℕ, zero, suc, ◌+◌, ◌-◌, Bool, true, false, not, ◌&&◌, ◌||◌, Option, none, some, List, [], ◌∷◌,
  ◌++◌, any, keep, length, ◌==◌, if◌then◌else◌,
}
use katalog_manager.Processing.Vocab.{find_name}
use katalog_manager.Retry.Queue.{
  Facts, unqueueable_of, Entry, QueueState, queued, sent, done, failed, Selection, by_items,
  by_held, by_all, Skip, skip_unknown, skip_no_episodes, skip_type, is_queued, is_sent, Unqueueable,
}

-- An item's type: one that is encoded, a series, or any other.
pub data Kind : Type 0 where
  title series other : Kind

-- A request; none is a blank name.
pub record Request : Type 0 where
  pub items : List (Option ℕ)
  pub held : Bool
  pub all : Bool

-- What the catalog says: an episode's holder or the item itself (HolderOrSelf), the types (typesOf),
-- a series' episodes (episodesOf), the titles held for their surround and all the packaged ones, and
-- why a title is not queued (unencodable and blocked).
pub record Names : Type 0 where
  pub holder : ℕ → ℕ
  pub kind_of : ℕ → Option Kind
  pub episodes_of : ℕ → List ℕ
  pub held_titles : List ℕ
  pub all_titles : List ℕ
  pub facts : Facts

pub record Picks : Type 0 where
  pub titles : List (ℕ × Selection)
  pub skipped : List (ℕ × Skip)

abbrev pub no_picks : Picks
no_picks = record { titles = []; skipped = [] }

-- picked[id] || skipped[id]
unfoldable pub taken : ℕ → Picks → Bool
taken id p = any (λ t. t.0 == id) p.titles || any (λ t. t.0 == id) p.skipped

-- pick and skip
unfoldable pub pick : Selection → Picks → ℕ → Picks
unfolding taken
pick s p id = if taken id p then p else record p { titles = p.titles ++ ((id, s) ∷ []) }

unfoldable pub skip : Skip → Picks → ℕ → Picks
unfolding taken
skip k p id = if taken id p then p else record p { skipped = p.skipped ++ ((id, k) ∷ []) }

unfoldable pub pick_all : Selection → Picks → List ℕ → Picks
unfolding pick
pick_all s p [] = p
pick_all s p (id ∷ ids) = pick_all s (pick s p id) ids

-- A series' episodes, or the series skipped.
abbrev pub pick_series : Picks → ℕ → List ℕ → Picks
pick_series p id [] = skip skip_no_episodes p id
pick_series p id (e ∷ es) = pick_all by_items p (e ∷ es)

-- A name's kind decides: the switch, after its first case.
unfoldable pub pick_kind : Names → Picks → ℕ → Option Kind → Picks
unfolding pick_all skip
pick_kind n p id none = skip skip_unknown p id
pick_kind n p id (some title) = pick by_items p id
pick_kind n p id (some series) = pick_series p id (n.episodes_of id)
pick_kind n p id (some other) = skip skip_type p id

unfoldable pub pick_name : Names → Picks → ℕ → Picks
unfolding pick_kind
pick_name n p id = if taken id p then p else pick_kind n p id (n.kind_of id)

unfoldable pub pick_names : Names → Picks → List (Option ℕ) → Picks
unfolding pick_name
pick_names n p [] = p
pick_names n p (none ∷ ids) = pick_names n p ids
pick_names n p (some id ∷ ids) = pick_names n (pick_name n p (n.holder id)) ids

-- The titles picked of a request, in the order of its selections.
unfoldable pub picks_of : Names → Request → Picks
unfolding pick_names
picks_of n r =
    let named = pick_names n no_picks r.items in
    let held = if r.held then pick_all by_held named n.held_titles else named in
    if r.all then pick_all by_all held n.all_titles else held

-- Of the titles picked those to queue, and those that are skipped.
unfoldable pub split_picks : Names → List (ℕ × Selection) → List (ℕ × Selection) × List (ℕ × Skip)
unfolding unqueueable_of
split_picks n [] = ([], [])
split_picks n ((id, s) ∷ ts) =
    let (queue, skipped) = split_picks n ts in
    elim (unqueueable_of n.facts id) [
      | some k ↦ (queue, (id, k.0) ∷ skipped)
      | none ↦ ((id, s) ∷ queue, skipped)
    ]

-- WHERE state IN ('queued', 'sent'): the partial index that a title conflicts on.
abbrev pub is_active : Entry → Bool
is_active q = is_queued q || is_sent q

abbrev pub is_active_of : ℕ → Entry → Bool
is_active_of item q = q.item == item && is_active q

-- INSERT ... ON CONFLICT DO NOTHING, in the order picked; ids and seqs count up from next.
abbrev pub new_entry : ℕ → ℕ → Selection → Entry
new_entry next item s = record {
  id = next;
  item = item;
  seq = next;
  selection = s;
  state = queued;
  reason = none;
  sent_at = none;
  done_at = none;
}

unfoldable pub insert_titles : ℕ → List (ℕ × Selection) → List Entry → List Entry × ℕ
insert_titles next [] qs = (qs, 0)
insert_titles next ((item, s) ∷ ts) qs =
    let entry = new_entry next item s in
    let again = insert_titles (suc next) ts qs in
    let (qs', n) = insert_titles (suc next) ts (qs ++ (entry ∷ [])) in
    if any (is_active_of item) qs then again else (qs', suc n)

pub record Enqueued : Type 0 where
  pub queued : ℕ
  pub already_queued : ℕ
  pub skipped : List (ℕ × Skip)

-- EnqueueReencode past its table, of a request that names titles.
unfoldable pub enqueue : Names → ℕ → Request → List Entry → List Entry × Enqueued
unfolding picks_of split_picks insert_titles
enqueue n next r qs =
    let p = picks_of n r in
    let (queue, skipped) = split_picks n p.titles in
    let (qs', count) = insert_titles next queue qs in
    (
      qs',
      record {
        queued = count;
        already_queued = length queue - count;
        skipped = p.skipped ++ skipped;
      },
    )

-- EnqueueReencode: none is a request that names nothing.
unfoldable pub enqueue_reencode : Names → ℕ → Request → List Entry → List Entry × Option Enqueued
unfolding enqueue
enqueue_reencode n next r qs =
    let (qs', out) = enqueue n next r qs in
    elim r.items [
      | [] ↦ if not r.held && not r.all then (qs, none) else (qs', some out)
      | i ∷ is ↦ (qs', some out)
    ]

-- The states by their names (queueStates).
unfoldable pub queue_name : QueueState → String
queue_name queued = "queued"
queue_name sent = "sent"
queue_name done = "done"
queue_name failed = "failed"

unfoldable pub queue_state : String → Option QueueState
unfolding find_name queue_name
queue_state w = find_name queue_name w (queued ∷ sent ∷ done ∷ failed ∷ [])

abbrev pub same_state : QueueState → QueueState → Bool
same_state queued queued = true
same_state sent sent = true
same_state done done = true
same_state failed failed = true
same_state _ _ = false

unfoldable pub states_of : List String → Option (List QueueState)
unfolding queue_state
states_of [] = some []
states_of (w ∷ ws) = elim (queue_state w) [
  | none ↦ none
  | some s ↦ elim (states_of ws) [ none ↦ none | some ss ↦ some (s ∷ ss) ]
]

abbrev pub default_states : List QueueState
default_states = queued ∷ done ∷ failed ∷ []

-- The DELETE, and how many it deleted.
unfoldable pub delete_states : List QueueState → List Entry → List Entry × ℕ
delete_states ss [] = ([], 0)
delete_states ss (q ∷ qs) =
    let (rest, n) = delete_states ss qs in
    if any (same_state q.state) ss then (rest, n + 1) else (q ∷ rest, n)

-- ClearReencodeQueue; none is an unknown state.
unfoldable pub clear_reencode_queue : List String → List Entry → List Entry × Option ℕ
unfolding states_of delete_states
clear_reencode_queue [] qs = let (rest, n) = delete_states default_states qs in (rest, some n)
clear_reencode_queue (w ∷ ws) qs = elim (states_of (w ∷ ws)) [
  | none ↦ (qs, none)
  | some ss ↦ let (rest, n) = delete_states ss qs in (rest, some n)
]
