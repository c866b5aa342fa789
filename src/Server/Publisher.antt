-- ===== src/Server/Publisher.antt =====
-- class MarketDataPublisher (server/include/server/publisher.hpp, server/src/publisher.cpp). A
-- std::shared_ptr<Subscription> is the subscriber's id, which names the subscription in a store: the
-- stream that holds it keeps it after the publisher has dropped it. Every operation holds the mutex,
-- and is one step. The callback `tap`, the text of `detail` and the thread are not here. `none` stands
-- for an exception.
pub mod Subscribing
pub mod Consistent
pub mod Symbols
pub mod Replaying
pub mod Opening
pub mod Recording
pub mod Joining
pub mod Views
use Prim.Native.String.{String}
use order_book_engine.Prelude.{
  ℕ, suc, ◌+◌, ◌%◌, ltb, ◌==◌, Bool, true, false, ◌&&◌, ◌||◌, not, Option, none, some, List, [],
  ◌∷◌, ◌++◌, if◌then◌else◌, Assoc, lookup, insert, erase, length, is_some, NameMap, find_name,
  erase_name,
}
use order_book_engine.Book.State.{word}
use order_book_engine.Server.Commands.{MarketEvent, Reply, SnapshotReady, Output}
use order_book_engine.Server.Subscription.{
  FeedItem, EndReason, Subscription, try_push, end_with, next_for,
}

pub data SubscriberKind : Type 0 where
  market replies : SubscriberKind

pub record SymbolState : Type 0 where
  pub live : Bool
  pub skip_below : ℕ

pub record Subscriber : Type 0 where
  pub kind : SubscriberKind
  pub live : Assoc SymbolState

pub record PublisherOptions : Type 0 where
  pub queue_capacity : ℕ
  pub replay_window : ℕ

-- The counters; the numbers of open streams are those of the maps.
pub record PublisherStats : Type 0 where
  pub events_routed : ℕ
  pub replies_dropped : ℕ
  pub slow_consumer_drops : ℕ
  pub replayed_events : ℕ
  pub too_old_refusals : ℕ

pub record Publisher : Type 0 where
  pub symbol_list : List ℕ
  pub options : PublisherOptions
  pub subscriptions : Assoc Subscription
  pub subscribers : Assoc Subscriber
  pub market_by_gateway : NameMap ℕ
  pub replies_by_gateway : NameMap ℕ
  pub next_id : ℕ
  pub closed : Bool
  pub stats : PublisherStats
  pub history : Assoc (List MarketEvent)
  pub last_seq : Assoc ℕ

abbrev pub is_member : ℕ → List ℕ → Bool
is_member s [] = false
is_member s (t ∷ ts) = s == t || is_member s ts

abbrev pub has_duplicates : List ℕ → Bool
has_duplicates [] = false
has_duplicates (s ∷ ss) = is_member s ss || has_duplicates ss

-- `has_requester`: the given std::function is not empty.
unfoldable pub make_publisher : List ℕ → Bool → PublisherOptions → Option Publisher
make_publisher symbols has_requester options =
    if not has_requester
    then none
    else if options.queue_capacity == 0
    then none
    else if has_duplicates symbols
    then none
    else some (record {
      symbol_list = symbols;
      options = options;
      subscriptions = [];
      subscribers = [];
      market_by_gateway = [];
      replies_by_gateway = [];
      next_id = 1;
      closed = false;
      stats = record {
        events_routed = 0;
        replies_dropped = 0;
        slow_consumer_drops = 0;
        replayed_events = 0;
        too_old_refusals = 0;
      };
      history = [];
      last_seq = [];
    })

-- The map of the subscribers of a kind.
abbrev pub pick {ℓ} : {A : Type ℓ} → SubscriberKind → A → A → A
pick SubscriberKind.market m r = m
pick SubscriberKind.replies m r = r

abbrev pub by_gateway : SubscriberKind → Publisher → NameMap ℕ
by_gateway kind p = pick kind p.market_by_gateway p.replies_by_gateway

abbrev pub with_gateways : SubscriberKind → NameMap ℕ → Publisher → Publisher
with_gateways kind m p = record p {
  market_by_gateway = pick kind m p.market_by_gateway;
  replies_by_gateway = pick kind p.replies_by_gateway m;
}

-- `sub->end(reason)` and then the erasures, for a subscriber that is there.
abbrev pub drop_found :
    ℕ → EndReason → Option Subscriber → Option Subscription → Publisher → Publisher
drop_found id reason none s p = p
drop_found id reason (some entry) none p = p
drop_found id reason (some entry) (some s) p =
    with_gateways entry.kind (erase_name s.gateway_id (by_gateway entry.kind p)) (record p {
      subscriptions = insert id (end_with reason s) p.subscriptions;
      subscribers = erase id p.subscribers;
    })

unfoldable pub drop : ℕ → EndReason → Publisher → Publisher
drop id reason p = drop_found id reason (lookup id p.subscribers) (lookup id p.subscriptions) p

abbrev pub unsubscribe : ℕ → Publisher → Publisher
unsubscribe id p = drop id EndReason.unsubscribed p

abbrev pub count_slow : Publisher → Publisher
count_slow p = record p {
  stats = record (p.stats) { slow_consumer_drops = (p.stats.slow_consumer_drops + 1) % word };
}

abbrev pub drop_slow : ℕ → Publisher → Publisher
drop_slow id p = drop id EndReason.slow_consumer (count_slow p)

unfoldable pub drop_all : List ℕ → Publisher → Publisher
unfolding drop
drop_all [] p = p
drop_all (id ∷ ids) p = drop_all ids (drop_slow id p)

-- `kept.push_back(event)`, and what the window leaves.
abbrev pub drop_first : List MarketEvent → List MarketEvent
drop_first [] = []
drop_first (e ∷ es) = es

abbrev pub trim : ℕ → List MarketEvent → List MarketEvent
trim window kept =
    if window == 0 then [] else if ltb window (length kept) then drop_first kept else kept

abbrev pub kept_events : Option (List MarketEvent) → List MarketEvent
kept_events none = []
kept_events (some es) = es

abbrev pub history_of : ℕ → Publisher → List MarketEvent
history_of symbol p = kept_events (lookup symbol p.history)

unfoldable pub remember : MarketEvent → Publisher → Publisher
remember e p = record p {
  history =
      insert e.symbol (trim p.options.replay_window (history_of e.symbol p ++ e ∷ [])) p.history;
  last_seq = insert e.symbol e.event.sequence_number p.last_seq;
}

-- Whether a subscriber is shown an event of a symbol, from its state for the symbol.
abbrev pub shows : ℕ → Option SymbolState → Bool
shows seq none = false
shows seq (some st) = st.live && not (ltb seq st.skip_below)

-- `sub->try_push(item)`
abbrev pub offer_found :
    ℕ → FeedItem → Option Subscription → Assoc Subscription → Bool × Assoc Subscription
offer_found id item none store = (true, store)
offer_found id item (some s) store = let (ok, t) = try_push item s in (ok, insert id t store)

unfoldable pub offer : ℕ → FeedItem → Assoc Subscription → Bool × Assoc Subscription
unfolding try_push
offer id item store = offer_found id item (lookup id store) store

abbrev pub note_slow : ℕ → Bool → List ℕ → List ℕ
note_slow id true slow = slow
note_slow id false slow = id ∷ slow

-- The loop over the subscribers: the store, and `too_slow`.
unfoldable pub show_event :
    MarketEvent → Assoc Subscriber → Assoc Subscription → Assoc Subscription × List ℕ
unfolding offer
show_event e [] store = (store, [])
show_event e ((id, entry) ∷ rest) store =
    let (ok, next) =
      (if shows e.event.sequence_number (lookup e.symbol entry.live)
        then offer id (FeedItem.market_event e) store
        else (true, store)) in
    let (last, slow) = show_event e rest next in (last, note_slow id ok slow)

abbrev pub count_event : Publisher → Publisher
count_event p = record p {
  stats = record (p.stats) { events_routed = (p.stats.events_routed + 1) % word };
}

unfoldable pub route_event : MarketEvent → Publisher → Publisher
unfolding remember show_event drop_all
route_event e p =
    let q = count_event (remember e p) in
    let (store, slow) = show_event e q.subscribers q.subscriptions in
    drop_all slow (record q { subscriptions = store })

-- A push to one subscriber, which is dropped where it is full.
unfoldable pub push_one : ℕ → FeedItem → Publisher → Publisher
unfolding offer drop
push_one id item p =
    let (ok, store) = offer id item p.subscriptions in
    let q = record p { subscriptions = store } in if ok then q else drop_slow id q

abbrev pub count_lost_reply : Publisher → Publisher
count_lost_reply p = record p {
  stats = record (p.stats) { replies_dropped = (p.stats.replies_dropped + 1) % word };
}

-- `subscribers_.at(id)` throws where there is none.
abbrev pub route_reply_to : Reply → Option ℕ → Publisher → Option Publisher
route_reply_to r none p = some (count_lost_reply p)
route_reply_to r (some id) p =
    if is_some (lookup id p.subscribers) then some (push_one id (FeedItem.reply r) p) else none

unfoldable pub route_reply : Reply → Publisher → Option Publisher
unfolding push_one
route_reply r p = route_reply_to r (find_name r.gateway_id p.replies_by_gateway) p

abbrev pub make_live : ℕ → SymbolState → Subscriber → Subscriber
make_live symbol st entry = record entry {
  live = insert symbol (record st { live = true }) entry.live;
}

abbrev pub show_snapshot : SnapshotReady → Subscriber → Option SymbolState → Publisher → Publisher
show_snapshot r entry none p = p
show_snapshot r entry (some st) p =
    if st.live
    then p
    else push_one r.subscriber (FeedItem.snapshot_ready r)
        (record p { subscribers = insert r.subscriber (make_live r.symbol st entry) p.subscribers })

abbrev pub route_snapshot_to : SnapshotReady → Option Subscriber → Publisher → Publisher
route_snapshot_to r none p = p
route_snapshot_to r (some entry) p = show_snapshot r entry (lookup r.symbol entry.live) p

unfoldable pub route_snapshot : SnapshotReady → Publisher → Publisher
unfolding push_one
route_snapshot r p = route_snapshot_to r (lookup r.subscriber p.subscribers) p

abbrev pub end_found : ℕ → Option Subscription → Assoc Subscription → Assoc Subscription
end_found id none store = store
end_found id (some s) store = insert id (end_with EndReason.shutdown s) store

unfoldable pub end_all : Assoc Subscriber → Assoc Subscription → Assoc Subscription
unfolding end_with
end_all [] store = store
end_all ((id, entry) ∷ rest) store = end_all rest (end_found id (lookup id store) store)

-- OutboxClosed
unfoldable pub close : Publisher → Publisher
unfolding end_all
close p = record p {
  closed = true;
  subscriptions = end_all p.subscribers p.subscriptions;
  subscribers = [];
  market_by_gateway = [];
  replies_by_gateway = [];
}

-- The thread's step on an output.
unfoldable pub handle : Output → Publisher → Option Publisher
unfolding route_event route_reply route_snapshot close
handle (Output.market_event e) p = some (route_event e p)
handle (Output.reply r) p = route_reply r p
handle (Output.snapshot_ready r) p = some (route_snapshot r p)
handle Output.outbox_closed p = some (close p)

-- A stream's `next_for` on its subscription.
abbrev pub read_found : ℕ → Option Subscription → Publisher → Option FeedItem × Publisher
read_found id none p = (none, p)
read_found id (some s) p =
    let (item, t) = next_for s in (item, record p { subscriptions = insert id t p.subscriptions })

unfoldable pub read : ℕ → Publisher → Option FeedItem × Publisher
read id p = read_found id (lookup id p.subscriptions) p
