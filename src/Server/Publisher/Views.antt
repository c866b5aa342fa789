-- ===== src/Server/Publisher/Views.antt =====
-- What a subscriber is shown (server/src/publisher.cpp, `route`): a description that knows only the
-- subscriber, and none of the publisher's maps.
pub mod Keeping
pub mod Pushing
pub mod Sharing
pub mod Sessions
pub mod Absent
pub mod Following
pub mod Observing
use Prim.Native.String.{String}
use order_book_engine.Prelude.{
  ℕ, Bool, true, false, ◌&&◌, Option, none, some, List, [], ◌∷◌, ◌++◌, if◌then◌else◌, ◌==◌, lookup,
  same_name,
}
use order_book_engine.Server.Commands.{MarketEvent, Reply, SnapshotReady, Output}
use order_book_engine.Server.Subscription.{FeedItem}
use order_book_engine.Server.Publisher.{
  SubscriberKind, SymbolState, Subscriber, Publisher, shows, make_live, handle, read, unsubscribe,
}

abbrev pub waits : Option SymbolState → Bool
waits none = false
waits (some st) = if st.live then false else true

abbrev pub gets_replies : SubscriberKind → Bool
gets_replies SubscriberKind.market = false
gets_replies SubscriberKind.replies = true

-- The item that an output is for the subscriber `id` of a gateway, if it is one.
abbrev pub shown : ℕ → String → Output → Subscriber → List FeedItem
shown id gateway_id (Output.market_event e) entry =
    if shows e.event.sequence_number (lookup e.symbol entry.live)
    then FeedItem.market_event e ∷ []
    else []
shown id gateway_id (Output.reply r) entry =
    if gets_replies entry.kind && same_name r.gateway_id gateway_id
    then FeedItem.reply r ∷ []
    else []
shown id gateway_id (Output.snapshot_ready r) entry =
    if id == r.subscriber && waits (lookup r.symbol entry.live)
    then FeedItem.snapshot_ready r ∷ []
    else []
shown id gateway_id Output.outbox_closed entry = []

-- A snapshot that was waited for starts the events of its symbol.
abbrev pub go_live : ℕ → Option SymbolState → Subscriber → Subscriber
go_live symbol none entry = entry
go_live symbol (some st) entry = if st.live then entry else make_live symbol st entry

abbrev pub after : ℕ → Output → Subscriber → Subscriber
after id (Output.snapshot_ready r) entry =
    if id == r.subscriber then go_live r.symbol (lookup r.symbol entry.live) entry else entry
after id (Output.market_event e) entry = entry
after id (Output.reply r) entry = entry
after id Output.outbox_closed entry = entry

abbrev pub view : ℕ → String → List Output → Subscriber → List FeedItem
view id gateway_id [] entry = []
view id gateway_id (o ∷ outs) entry =
    shown id gateway_id o entry ++ view id gateway_id outs (after id o entry)
