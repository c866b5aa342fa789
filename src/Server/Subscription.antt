-- ===== src/Server/Subscription.antt =====
-- class Subscription (server/include/server/publisher.hpp, server/src/publisher.cpp): the bounded queue
-- between the publisher and one stream. Each operation is one critical section.
use Prim.Native.String.{String}
use order_book_engine.Prelude.{
  ℕ, leb, Bool, true, false, Option, some, List, [], ◌∷◌, ◌++◌, if◌then◌else◌, length,
}
use order_book_engine.Server.Commands.{MarketEvent, Reply, SnapshotReady}

pub data FeedItem : Type 0 where
  snapshot_ready : SnapshotReady → FeedItem
  market_event : MarketEvent → FeedItem
  reply : Reply → FeedItem

pub data EndReason : Type 0 where
  none unsubscribed slow_consumer shutdown : EndReason

abbrev pub is_ended : EndReason → Bool
is_ended EndReason.none = false
is_ended _ = true

abbrev pub is_slow : EndReason → Bool
is_slow EndReason.slow_consumer = true
is_slow _ = false

pub record Subscription : Type 0 where
  pub id : ℕ
  pub gateway_id : String
  pub capacity : ℕ
  pub items : List FeedItem
  pub end_reason : EndReason

abbrev pub new_subscription : ℕ → String → ℕ → Subscription
new_subscription id gateway_id capacity = record {
  id = id;
  gateway_id = gateway_id;
  capacity = capacity;
  items = [];
  end_reason = EndReason.none;
}

-- `false` where the queue is full.
unfoldable pub try_push : FeedItem → Subscription → Bool × Subscription
try_push item s =
    if is_ended s.end_reason
    then (true, s)
    else if leb s.capacity (length s.items)
    then (false, s)
    else (true, record s { items = s.items ++ item ∷ [] })

unfoldable pub end_with : EndReason → Subscription → Subscription
end_with reason s =
    if is_ended s.end_reason
    then s
    else record s { end_reason = reason; items = if is_slow reason then [] else s.items }

abbrev pub pop_front : List FeedItem → Subscription → Option FeedItem × Subscription
pop_front [] s = (Option.none, s)
pop_front (item ∷ items) s = (some item, record s { items = items })

-- What `next_for` returns when its wait is over: for an item, for the end, or for the timeout.
abbrev pub next_for : Subscription → Option FeedItem × Subscription
next_for s = pop_front s.items s

abbrev pub ended : Subscription → Bool
ended s = is_ended s.end_reason
