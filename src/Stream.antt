-- ===== src/Stream.antt =====
-- internal/stream/stream.go: the broker that fans the pipeline's notes out to the clients of its event
-- stream. A channel is known by its place among all that were made; the clients act one at a time, as
-- the broker's mutex and the channels have them.
pub mod Order
use katalog_manager.Base.{
  ℕ, zero, suc, Bool, true, false, Option, none, some, List, [], ◌∷◌, ◌++◌, map, length, count, ltb,
  if◌then◌else◌,
}
use katalog_manager.Base.Text.{Text, codes}

-- clientBuffer
abbrev pub client_buffer : ℕ
client_buffer = 16

pub record Note : Type 0 where
  pub kind : Text
  pub item : Text
  pub item_type : Text
  pub phase : Text

-- A client's channel and handler: whether the broker has the channel among its subscribers, and whether
-- it is closed, what is buffered, and what the handler has written to the response.
pub record Client : Type 0 where
  pub subscribed : Bool
  pub closed : Bool
  pub buffer : List Text
  pub written : List Text

-- Broker: every channel that was made, in order.
abbrev pub Broker : Type 0
Broker = List Client

abbrev pub close_client : Client → Client
close_client c = record c { subscribed = false; closed = true }

-- Publish, of one channel.
unfoldable pub send : Text → Client → Client
send payload c =
    if c.subscribed
    then if ltb (length c.buffer) client_buffer
      then record c { buffer = c.buffer ++ payload ∷ [] }
      else close_client c
    else c

-- subscribe
unfoldable pub subscribe : Broker → Broker
subscribe b = b ++ record { subscribed = true; closed = false; buffer = []; written = [] } ∷ []

-- unsubscribe, of one channel.
unfoldable pub leave : Client → Client
leave c = if c.subscribed then close_client c else c

-- The handler's receive and its write; of a channel that is closed too, while it has notes.
abbrev take_from : List Text → Client → Client
take_from [] c = c
take_from (payload ∷ rest) c = record c { buffer = rest; written = c.written ++ payload ∷ [] }

unfoldable pub receive : Client → Client
receive c = take_from c.buffer c

abbrev pub at_place : ℕ → (Client → Client) → Broker → Broker
at_place k f [] = []
at_place zero f (c ∷ cs) = f c ∷ cs
at_place (suc k) f (c ∷ cs) = c ∷ at_place k f cs

-- Clients
unfoldable pub clients : Broker → ℕ
clients b = count (λ c. c.subscribed) b

-- What is done to a broker: Publish, the start of a handler, its end, and a note that it receives.
pub data Action : Type 0 where
  publishes : Note → Action
  subscribes : Action
  unsubscribes receives : ℕ → Action

unfoldable pub send_all : Option Text → Broker → Broker
unfolding send
send_all none b = b
send_all (some payload) b = map (send payload) b

abbrev pub published_by : Option Text → List Text → List Text
published_by none ps = ps
published_by (some payload) ps = payload ∷ ps

-- json.Marshal, which may fail, is a parameter: marshal.
module _ (marshal : Note → Option Text) where
  abbrev pub payload_of : Note → Option Text
  payload_of n = marshal (record n { kind = codes "catalog.updated" })

  -- Publish
  unfoldable pub publish : Note → Broker → Broker
  unfolding send_all
  publish n b = send_all (payload_of n) b

  unfoldable pub step : Action → Broker → Broker
  unfolding publish subscribe leave receive
  step (publishes n) b = publish n b
  step subscribes b = subscribe b
  step (unsubscribes k) b = at_place k leave b
  step (receives k) b = at_place k receive b

  unfoldable pub run : List Action → Broker → Broker
  unfolding step
  run [] b = b
  run (a ∷ more) b = run more (step a b)

  -- The payloads that are published.
  unfoldable pub published : List Action → List Text
  published [] = []
  published (publishes n ∷ more) = published_by (payload_of n) (published more)
  published (subscribes ∷ more) = published more
  published (unsubscribes k ∷ more) = published more
  published (receives k ∷ more) = published more
