-- ===== src/Server/Publisher/Subscribing.antt =====
-- MarketDataPublisher::subscribe and subscribe_replies (server/src/publisher.cpp).
use Prim.Native.String.{String}
use order_book_engine.Prelude.{
  ℕ, ◌+◌, ◌%◌, ltb, leb, ◌==◌, Bool, true, false, ◌&&◌, ◌||◌, not, Option, some, List, [], ◌∷◌,
  if◌then◌else◌, Assoc, lookup, insert, emplace, length, contains, is_some, find_name, emplace_name,
}
use order_book_engine.Book.State.{word}
use order_book_engine.Server.Commands.{MarketEvent}
use order_book_engine.Server.Worker.{is_empty_id}
use order_book_engine.Server.Subscription.{FeedItem, Subscription, new_subscription, try_push}
use order_book_engine.Server.Publisher.{
  SubscriberKind, SymbolState, Publisher, is_member, kept_events, by_gateway, with_gateways,
}

pub data SubscribeError : Type 0 where
  none empty_gateway_id gateway_already_subscribed unknown_symbol : SubscribeError
  closed bad_from_seq too_old : SubscribeError

-- The subscription is named by its id.
pub record SubscribeResult : Type 0 where
  pub subscription : Option ℕ
  pub error : SubscribeError

abbrev pub refusal : SubscribeError → SubscribeResult
refusal why = record { subscription = Option.none; error = why }

-- std::sort, and std::unique with erase.
abbrev pub insert_sorted : ℕ → List ℕ → List ℕ
insert_sorted s [] = s ∷ []
insert_sorted s (t ∷ ts) = if leb s t then s ∷ t ∷ ts else t ∷ insert_sorted s ts

abbrev pub sort : List ℕ → List ℕ
sort [] = []
sort (s ∷ ss) = insert_sorted s (sort ss)

abbrev pub is_head : ℕ → List ℕ → Bool
is_head s [] = false
is_head s (t ∷ ts) = s == t

abbrev pub unique : List ℕ → List ℕ
unique [] = []
unique (s ∷ ss) = let rest = unique ss in if is_head s ss then rest else s ∷ rest

abbrev pub wanted_symbols : List ℕ → Publisher → List ℕ
wanted_symbols [] p = unique (sort p.symbol_list)
wanted_symbols (s ∷ ss) p = unique (sort (s ∷ ss))

abbrev pub all_known : List ℕ → List ℕ → Bool
all_known [] known = true
all_known (s ∷ ss) known = is_member s known && all_known ss known

-- `std::binary_search` in the sorted symbols, as membership.
abbrev pub good_from : Assoc ℕ → List ℕ → Bool
good_from [] symbols = true
good_from ((symbol, seq) ∷ from) symbols =
    not (not (is_member symbol symbols) || ltb seq 1) && good_from from symbols

-- The checks before the mutex is taken; `symbols` are sorted.
unfoldable pub check_request : String → List ℕ → Assoc ℕ → Publisher → SubscribeError
check_request gateway_id symbols from p =
    if is_empty_id gateway_id
    then SubscribeError.empty_gateway_id
    else if not (all_known symbols p.symbol_list)
    then SubscribeError.unknown_symbol
    else if not (good_from from symbols)
    then SubscribeError.bad_from_seq
    else SubscribeError.none

abbrev pub or_zero : Option ℕ → ℕ
or_zero Option.none = 0
or_zero (some n) = n

abbrev pub last_of : ℕ → Publisher → ℕ
last_of symbol p = or_zero (lookup symbol p.last_seq)

abbrev pub first_or : ℕ → List MarketEvent → ℕ
first_or n [] = n
first_or n (e ∷ es) = e.event.sequence_number

abbrev pub oldest_of : ℕ → Publisher → ℕ
oldest_of symbol p =
    first_or ((last_of symbol p + 1) % word) (kept_events (lookup symbol p.history))

abbrev pub is_too_old : Assoc ℕ → Publisher → Bool
is_too_old [] p = false
is_too_old ((symbol, wanted) ∷ from) p =
    (leb wanted (last_of symbol p) && ltb wanted (oldest_of symbol p)) || is_too_old from p

abbrev pub count_from : ℕ → List MarketEvent → ℕ
count_from wanted [] = 0
count_from wanted (e ∷ es) =
    let rest = count_from wanted es in if leb wanted e.event.sequence_number then rest + 1 else rest

abbrev pub replay_count : Assoc ℕ → Publisher → ℕ
replay_count [] p = 0
replay_count ((symbol, wanted) ∷ from) p =
    count_from wanted (kept_events (lookup symbol p.history)) + replay_count from p

-- The replay of one symbol; `none` where it does not fit.
abbrev pub pushed_or_throw : Bool × Subscription → Option Subscription
pushed_or_throw (true, s) = some s
pushed_or_throw (false, s) = Option.none

abbrev pub and_then :
    Option Subscription → (Subscription → Option Subscription) → Option Subscription
and_then Option.none f = Option.none
and_then (some s) f = f s

unfoldable pub replay : ℕ → List MarketEvent → Subscription → Option Subscription
unfolding try_push
replay wanted [] s = some s
replay wanted (e ∷ es) s =
    and_then
      (if leb wanted e.event.sequence_number
        then pushed_or_throw (try_push (FeedItem.market_event e) s)
        else some s)
      (replay wanted es)

abbrev pub replay_symbol : ℕ → Option ℕ → Publisher → Subscription → Option Subscription
replay_symbol symbol Option.none p s = some s
replay_symbol symbol (some wanted) p s = replay wanted (kept_events (lookup symbol p.history)) s

unfoldable pub replay_all : List ℕ → Assoc ℕ → Publisher → Subscription → Option Subscription
unfolding replay
replay_all [] from p s = some s
replay_all (symbol ∷ symbols) from p s =
    and_then (replay_symbol symbol (lookup symbol from) p s) (replay_all symbols from p)

-- The symbols that start with a snapshot.
abbrev pub snapshots : List ℕ → Assoc ℕ → List ℕ
snapshots [] from = []
snapshots (symbol ∷ symbols) from =
    let rest = snapshots symbols from in if contains symbol from then rest else symbol ∷ rest

abbrev pub start_state : Option ℕ → SymbolState
start_state Option.none = record { live = false; skip_below = 0 }
start_state (some seq) = record { live = true; skip_below = seq }

abbrev pub live_states : List ℕ → Assoc ℕ → Assoc SymbolState → Assoc SymbolState
live_states [] from live = live
live_states (symbol ∷ symbols) from live =
    live_states symbols from (emplace symbol (start_state (lookup symbol from)) live)

-- The publisher, what the caller gets, and the snapshots that are requested for the new id.
pub record Subscribed : Type 0 where
  pub publisher : Publisher
  pub result : SubscribeResult
  pub requests : List (ℕ × ℕ)

abbrev pub refused : SubscribeError → Publisher → Subscribed
refused why p = record { publisher = p; result = refusal why; requests = [] }

abbrev pub requests_for : ℕ → List ℕ → List (ℕ × ℕ)
requests_for id [] = []
requests_for id (symbol ∷ symbols) = (symbol, id) ∷ requests_for id symbols

-- Both maps and the store, with the new id.
abbrev pub enter :
    SubscriberKind → String → Assoc SymbolState → Subscription → Publisher → Publisher
enter kind gateway_id live s p =
    with_gateways kind (emplace_name gateway_id p.next_id (by_gateway kind p)) (record p {
      subscriptions = insert p.next_id s p.subscriptions;
      subscribers = emplace p.next_id (record { kind = kind; live = live }) p.subscribers;
      next_id = (p.next_id + 1) % word;
    })

-- Each event that was replayed is counted: the queue was empty before.
abbrev pub count_replayed : Subscription → Publisher → Publisher
count_replayed s p = record p {
  stats = record (p.stats) { replayed_events = (p.stats.replayed_events + length s.items) % word };
}

abbrev pub open_with :
    String → List ℕ → Assoc ℕ → Option Subscription → Publisher → Option Subscribed
open_with gateway_id symbols from Option.none p = Option.none
open_with gateway_id symbols from (some s) p = some (record {
  publisher =
      enter SubscriberKind.market gateway_id (live_states symbols from []) s (count_replayed s p);
  result = record { subscription = some p.next_id; error = SubscribeError.none };
  requests = requests_for p.next_id (snapshots symbols from);
})

abbrev pub first_subscription : String → Assoc ℕ → Publisher → Subscription
first_subscription gateway_id from p =
    new_subscription p.next_id gateway_id ((p.options.queue_capacity + replay_count from p) % word)

abbrev pub count_too_old : Publisher → Publisher
count_too_old p = record p {
  stats = record (p.stats) { too_old_refusals = (p.stats.too_old_refusals + 1) % word };
}

-- Under the mutex.
unfoldable pub open_market : String → List ℕ → Assoc ℕ → Publisher → Option Subscribed
unfolding replay_all
open_market gateway_id symbols from p =
    if p.closed
    then some (refused SubscribeError.closed p)
    else if is_some (find_name gateway_id p.market_by_gateway)
    then some (refused SubscribeError.gateway_already_subscribed p)
    else if is_too_old from p
    then some (refused SubscribeError.too_old (count_too_old p))
    else open_with gateway_id symbols from
        (replay_all symbols from p (first_subscription gateway_id from p)) p

abbrev pub if_good : SubscribeError → Publisher → Option Subscribed → Option Subscribed
if_good SubscribeError.none p r = r
if_good why p r = some (refused why p)

unfoldable pub subscribe : String → List ℕ → Assoc ℕ → Publisher → Option Subscribed
unfolding check_request open_market
subscribe gateway_id symbols from p =
    let sorted = wanted_symbols symbols p in
    if_good (check_request gateway_id sorted from p) p (open_market gateway_id sorted from p)

unfoldable pub subscribe_replies : String → Publisher → Subscribed
subscribe_replies gateway_id p =
    if is_empty_id gateway_id
    then refused SubscribeError.empty_gateway_id p
    else if p.closed
    then refused SubscribeError.closed p
    else if is_some (find_name gateway_id p.replies_by_gateway)
    then refused SubscribeError.gateway_already_subscribed p
    else record {
      publisher =
          enter SubscriberKind.replies gateway_id []
            (new_subscription p.next_id gateway_id p.options.queue_capacity) p;
      result = record { subscription = some p.next_id; error = SubscribeError.none };
      requests = [];
    }
