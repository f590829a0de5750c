-- ===== src/Tests/Stream.antt =====
-- A case of the stream's theorem.
use katalog_manager.Base.{◌≤◌, ◌≡◌, true, Option, some, List, [], ◌∷◌, ◌++◌, length, get_elem?}
use katalog_manager.Base.Text.{Text, codes}
use katalog_manager.Stream.{
  Note, Client, Action, publishes, subscribes, unsubscribes, receives, subscribe, run, published,
  Broker,
}
use katalog_manager.Stream.Order.{run-subscribe}

abbrev item_only : Note → Option Text
item_only n = some n.item

abbrev note : Note
note = record {
  kind = [];
  item = codes "film";
  item_type = codes "movie";
  phase = codes "enriched";
}

abbrev actions : List Action
actions = publishes note ∷ subscribes ∷ receives 0 ∷ publishes note ∷ unsubscribes 1 ∷ []

abbrev none_yet : Broker
none_yet = []

run-subscribe_example :
    (c : Client) × (get_elem? (run item_only actions (subscribe none_yet)) 0 ≡ some c)
    × (c.subscribed ≡ true → published item_only actions ≡ c.written ++ c.buffer)
    × ((rest : List Text) × (published item_only actions ≡ (c.written ++ c.buffer) ++ rest))
    × (length c.buffer ≤ 16)
run-subscribe_example = run-subscribe item_only none_yet actions
