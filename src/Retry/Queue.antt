-- ===== src/Retry/Queue.antt =====
-- internal/retry/queue.go: the queue of titles to encode again, its rows and why it takes a title or
-- not. The words of the original's retirement (Original.Why) are an argument.
pub mod Finish
pub mod Enqueue
pub mod Send
pub mod Drain
pub mod Writes
pub mod States
pub mod Ends
pub mod Inflight
use katalog_manager.Base.{
  ℕ, ◌+◌, Bool, true, false, not, ◌&&◌, Option, none, some, List, [], ◌∷◌, ◌++◌, take, ◌==◌,
  is_some, if◌then◌else◌, coalesce,
}
use katalog_manager.Base.Text.{Text, codes}

pub data QueueState : Type 0 where
  queued sent done failed : QueueState

-- By which of a request's selections a title was queued.
pub data Selection : Type 0 where
  by_items by_held by_all : Selection

-- A row of the queue's table; who queued it is not kept here.
pub record Entry : Type 0 where
  pub id : ℕ
  pub item : ℕ
  pub seq : ℕ
  pub selection : Selection
  pub state : QueueState
  pub reason : Option Text
  pub sent_at : Option ℕ
  pub done_at : Option ℕ

abbrev pub is_queued : Entry → Bool
is_queued q = elim q.state [ queued ↦ true | _ ↦ false ]

abbrev pub is_sent : Entry → Bool
is_sent q = elim q.state [ sent ↦ true | _ ↦ false ]

-- left(reason, 500)
abbrev pub left_500 : Text → Text
left_500 t = take 500 t

-- graph.SkipUnknown and the other kinds of titles that the queue does not take.
pub data Skip : Type 0 where
  skip_unknown skip_no_episodes skip_type skip_deleted skip_deleting : Skip
  skip_no_file skip_disc_image skip_no_video : Skip
  skip_dolby_vision : Text → Skip

-- The kinds as they are written.
unfoldable pub skip_name : Skip → Text
skip_name skip_unknown = codes "unknown"
skip_name skip_no_episodes = codes "noepisodes"
skip_name skip_type = codes "type"
skip_name skip_deleted = codes "deleted"
skip_name skip_deleting = codes "deleting"
skip_name skip_no_file = codes "nofile"
skip_name skip_disc_image = codes "disc"
skip_name skip_no_video = codes "novideo"
skip_name (skip_dolby_vision profile) = codes "dolbyvision:" ++ profile

-- library.OriginalState
pub data OriginalState : Type 0 where
  original_none present retiring retired : OriginalState

-- What unencodable reads of a title.
pub record Title : Type 0 where
  pub typ : Option Text
  pub file : Bool
  pub disc : Bool
  pub original : OriginalState
  pub original_why : Text

-- unqueueable
abbrev pub Unqueueable : Type 0
Unqueueable = Skip × Text

-- Original.Gone
abbrev pub gone : OriginalState → Bool
gone retired = true
gone retiring = true
gone _ = false

-- The switch of unencodable, after the case of an item that is gone; new_arrival is a constant of
-- retire.go.
abbrev pub unencodable_as : Text → Title → Text → OriginalState → Option Unqueueable
unencodable_as new_arrival t typ retiring =
    some (skip_deleting, t.original_why ++ codes "; " ++ new_arrival)
unencodable_as new_arrival t typ o =
    if gone o
    then some (skip_deleted, t.original_why ++ codes "; " ++ new_arrival)
    else if not t.file
    then some (skip_no_file, codes "the " ++ typ ++ codes " has no file to encode")
    else if t.disc
    then some (skip_disc_image, codes "its file is a disc image: convert it to a single file")
    else none

-- unencodable, of one title
unfoldable pub unencodable : Text → Title → Option Unqueueable
unencodable new_arrival t = elim t.typ [
  | none ↦ some (skip_unknown, codes "unknown item")
  | some typ ↦ unencodable_as new_arrival t typ t.original
]

-- blockedWhy
unfoldable pub blocked_why : Skip → Text
unfolding skip_name
blocked_why (skip_dolby_vision profile) =
    codes "the library's compliance check found that its original is Dolby Vision profile "
    ++ profile
    ++ codes ", which the transcoder leaves as it is"
blocked_why skip_no_video =
    codes "the library's compliance check found that its original has no video"
blocked_why kind =
    codes "the library's compliance check found that encoding it again can't help ("
    ++ skip_name kind
    ++ codes ")"

-- blocked, of one title: the compliance check's kind of it, where nothing else keeps it out.
unfoldable pub blocked : Option Skip → Option Unqueueable → Option Unqueueable
unfolding blocked_why
blocked kind (some why) = some why
blocked none none = none
blocked (some kind) none = some (kind, blocked_why kind)

-- What unencodable and blocked read: the constant newArrival, the titles, and the kinds that the
-- compliance check finds.
pub record Facts : Type 0 where
  pub new_arrival : Text
  pub title_of : ℕ → Title
  pub blocked_as : ℕ → Option Skip

-- Why a title is not queued or sent: both of them, in their order.
unfoldable pub unqueueable_of : Facts → ℕ → Option Unqueueable
unfolding unencodable blocked
unqueueable_of f item = blocked (f.blocked_as item) (unencodable f.new_arrival (f.title_of item))
