-- ===== src/Tests/Publishing.antt =====
-- A publisher with a subscriber, and the theorems on it at a concrete run.
use order_book_engine.Prelude.{
  pos, Option, none, some, true, false, List, [], ◌∷◌, ◌++◌, ◌≡◌, refl, sym, subst, arith, lookup,
  same_name, find_name, emplace_name, erase_name,
}
use order_book_engine.Types.{EventKind, RejectReason, buy}
use order_book_engine.Server.Commands.{Output}
use order_book_engine.Server.Subscription.{
  FeedItem, Subscription, new_subscription, try_push, end_with,
}
use order_book_engine.Server.Publisher.{
  Publisher, Subscriber, SubscriberKind, make_publisher, drop, drop_all, remember, offer,
  show_event, route_event, push_one, route_reply, route_snapshot, end_all, close, handle, read,
}
use order_book_engine.Server.Publisher.Subscribing.{
  Subscribed, wanted_symbols, check_request, replay, replay_all, open_market, subscribe,
  subscribe_replies,
}
use order_book_engine.Server.Publisher.Consistent.{IsConsistent}
use order_book_engine.Server.Publisher.Consistent.Handling.{
  handle-IsConsistent, make_publisher-IsConsistent,
}
use order_book_engine.Server.Publisher.Opening.{Answers, subscribe-Answers}
use order_book_engine.Server.Publisher.Joining.{Request, open_kind}
use order_book_engine.Server.Publisher.Views.{view}
use order_book_engine.Server.Publisher.Views.Sessions.{Action, outputs_of, act, act_all}
use order_book_engine.Server.Publisher.Views.Observing.{act_all-view}
use order_book_engine.Tests.Data.{engine, value_or}

-- Unfolds the model of the publisher.
unfoldable pub publishing : Unit {0}
unfolding engine same_name find_name emplace_name erase_name try_push end_with make_publisher drop
    drop_all remember offer show_event route_event push_one route_reply route_snapshot end_all close
    handle read check_request replay replay_all open_market subscribe subscribe_replies open_kind
    act act_all
publishing = tt

abbrev pub blank : Publisher
blank = record {
  symbol_list = [];
  options = record { queue_capacity = 1; replay_window = 0 };
  subscriptions = [];
  subscribers = [];
  market_by_gateway = [];
  replies_by_gateway = [];
  next_id = 1;
  closed = true;
  stats = record {
    events_routed = 0;
    replies_dropped = 0;
    slow_consumer_drops = 0;
    replayed_events = 0;
    too_old_refusals = 0;
  };
  history = [];
  last_seq = [];
}

abbrev pub opened_publisher : Publisher
unfolding publishing
opened_publisher =
    value_or blank (make_publisher (1 ∷ []) true (record { queue_capacity = 8; replay_window = 4 }))

pub opened_publisher-IsConsistent : IsConsistent opened_publisher
unfolding publishing
opened_publisher-IsConsistent =
    make_publisher-IsConsistent (1 ∷ []) true (record { queue_capacity = 8; replay_window = 4 })
      opened_publisher refl

subscribe-Answers_example :
    Answers "g"
      (wanted_symbols [] opened_publisher)
      []
      opened_publisher
      (subscribe "g" [] [] opened_publisher)
unfolding publishing
subscribe-Answers_example =
    subscribe-Answers "g" [] [] opened_publisher opened_publisher-IsConsistent (omega arith)
      (omega arith)

abbrev pub published : Option Subscribed → Publisher
published none = blank
published (some r) = r.publisher

abbrev pub one_subscriber : Publisher
unfolding publishing
one_subscriber = published (subscribe "g" [] [] opened_publisher)

pub one_subscriber-IsConsistent : IsConsistent one_subscriber
unfolding publishing
one_subscriber-IsConsistent =
    let (r, e, c, how) =
      subscribe-Answers "g" [] [] opened_publisher opened_publisher-IsConsistent (omega arith)
        (omega arith) in
    subst (λ o. IsConsistent (published o)) (sym e) c

abbrev snapshot_output : Output
snapshot_output = Output.snapshot_ready (record {
  symbol = 1;
  subscriber = 1;
  snapshot = record {
    as_of_sequence = 4;
    bids = [];
    asks = [];
    stops = [];
    last_trade_price = none;
    halted = false;
  };
})

abbrev event_output : Output
event_output = Output.market_event (record {
  symbol = 1;
  client_order_id = "";
  event = record {
    sequence_number = 5;
    kind = EventKind.resumed;
    ts = pos 7;
    order_id = 0;
    passive_id = 0;
    owner_id = 0;
    other_owner = 0;
    side = buy;
    price = none;
    quantity = pos 0;
    limit_price = none;
    reject_reason = RejectReason.none;
  };
})

handle-IsConsistent_example :
    (q : Publisher) × (handle snapshot_output one_subscriber ≡ some q) × IsConsistent q
unfolding publishing
handle-IsConsistent_example =
    handle-IsConsistent snapshot_output one_subscriber one_subscriber-IsConsistent

-- A stream of another gateway.
abbrev pub other_stream : Request
other_stream = record {
  kind = SubscriberKind.market;
  gateway_id = "h";
  symbols = [];
  from_seq = [];
}

-- The snapshot is read, the event waits; another stream comes and goes.
abbrev pub actions : List Action
actions =
    Action.handles snapshot_output
    ∷ Action.reads 1
    ∷ Action.handles event_output
    ∷ Action.opens other_stream
    ∷ Action.leaves 2
    ∷ []

abbrev pub finished : Publisher × List FeedItem
unfolding publishing
finished = value_or (one_subscriber, []) (act_all 1 actions one_subscriber)

abbrev pub entry : Subscriber
entry = record {
  kind = SubscriberKind.market;
  live = (1, record { live = false; skip_below = 0 }) ∷ [];
}

abbrev pub subscription : Subscription
subscription = new_subscription 1 "g" 8

pub actions_end : act_all 1 actions one_subscriber ≡ some finished
unfolding publishing
actions_end = refl

act_all-view_example :
    (t : Subscription) × (lookup 1 finished.0.subscriptions ≡ some t)
    × (t.gateway_id ≡ "g")
    × (finished.1 ++ t.items ≡ [] ++ view 1 "g" (outputs_of actions) entry)
unfolding publishing
act_all-view_example =
    act_all-view actions 1 one_subscriber finished.0 entry
      (record entry { live = (1, record { live = true; skip_below = 0 }) ∷ [] }) subscription
      finished.1 one_subscriber-IsConsistent refl refl (omega arith) actions_end refl
