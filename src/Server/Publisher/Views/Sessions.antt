-- ===== src/Server/Publisher/Views/Sessions.antt =====
-- A run of the publisher with its streams (server/src/publisher.cpp): outputs, reads, leavings and calls of
-- subscribe and subscribe_replies, in the order in which they take the mutexes.
use order_book_engine.Prelude.{ℕ, Option, none, some, List, [], ◌∷◌, ◌++◌, if◌then◌else◌, ◌==◌}
use order_book_engine.Server.Commands.{Output}
use order_book_engine.Server.Subscription.{FeedItem}
use order_book_engine.Server.Publisher.{Publisher, handle, read, unsubscribe, drop}
use order_book_engine.Prelude.{ℕ, ◌+◌, Option, none, some, List, [], ◌∷◌, ◌++◌, if◌then◌else◌, ◌==◌}
use order_book_engine.Server.Commands.{Output}
use order_book_engine.Server.Subscription.{FeedItem}
use order_book_engine.Server.Publisher.{Publisher, handle, read, unsubscribe, drop}
use order_book_engine.Server.Publisher.Joining.{Request, joined, open_kind, open_stream}

pub data Action : Type 0 where
  handles : Output → Action
  reads : ℕ → Action
  leaves : ℕ → Action
  opens : Request → Action

abbrev pub outputs_of : List Action → List Output
outputs_of [] = []
outputs_of (Action.handles o ∷ acts) = o ∷ outputs_of acts
outputs_of (Action.reads j ∷ acts) = outputs_of acts
outputs_of (Action.leaves j ∷ acts) = outputs_of acts
outputs_of (Action.opens q ∷ acts) = outputs_of acts

-- How many ids the actions take at most.
abbrev pub grows : Action → ℕ
grows (Action.handles o) = 0
grows (Action.reads j) = 0
grows (Action.leaves j) = 0
grows (Action.opens q) = 1

abbrev pub opens_in : List Action → ℕ
opens_in [] = 0
opens_in (a ∷ acts) = grows a + opens_in acts

abbrev pub items_of : Option FeedItem → List FeedItem
items_of none = []
items_of (some item) = item ∷ []

abbrev pub without_items : Option Publisher → Option (Publisher × List FeedItem)
without_items none = none
without_items (some p) = some (p, [])

abbrev pub with_items :
    List FeedItem → Option (Publisher × List FeedItem) → Option (Publisher × List FeedItem)
with_items items none = none
with_items items (some (p, more)) = some (p, items ++ more)

abbrev pub and_go_on :
    Option (Publisher × List FeedItem)
    → (Publisher → Option (Publisher × List FeedItem))
    → Option (Publisher × List FeedItem)
and_go_on none f = none
and_go_on (some (p, items)) f = with_items items (f p)

-- One action, and the items that the stream of `id` reads.
unfoldable pub act : ℕ → Action → Publisher → Option (Publisher × List FeedItem)
unfolding handle read drop open_kind
act id (Action.handles o) p = without_items (handle o p)
act id (Action.reads j) p =
    let (item, q) = read j p in some (q, if id == j then items_of item else [])
act id (Action.leaves j) p = some (unsubscribe j p, [])
act id (Action.opens q) p = without_items (joined (open_stream q p))

unfoldable pub act_all : ℕ → List Action → Publisher → Option (Publisher × List FeedItem)
unfolding act
act_all id [] p = some (p, [])
act_all id (a ∷ acts) p = and_go_on (act id a p) (act_all id acts)
