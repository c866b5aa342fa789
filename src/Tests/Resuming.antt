-- ===== src/Tests/Resuming.antt =====
-- The history of a symbol, and a stream that starts from a number.
use order_book_engine.Prelude.{
  ℕ, pos, none, some, List, [], ◌∷◌, ◌++◌, ◌≡◌, refl, arith, lookup, inr, true, sym, ap, subst,
}
use order_book_engine.Types.{EventKind, RejectReason, buy}
use order_book_engine.Server.Commands.{Output}
use order_book_engine.Server.Subscription.{FeedItem, Subscription}
use order_book_engine.Server.Publisher.{Publisher, Subscriber, SubscriberKind}
use order_book_engine.Server.Publisher.Subscribing.{Subscribed, SubscribeError, subscribe, refused}
use order_book_engine.Server.Publisher.Consistent.{IsConsistent}
use order_book_engine.Server.Publisher.Consistent.Handling.{handle-IsConsistent}
use order_book_engine.Server.Publisher.Views.Sessions.{Action, act_all}
use order_book_engine.Server.Feeds.{items_about, Numbered}
use order_book_engine.Server.Feeds.Histories.{Records, act_all-Records, make_publisher-Records}
use order_book_engine.Server.Feeds.Whole.{act_all-Resumes}
use order_book_engine.Tests.Data.{value_or}
use order_book_engine.Tests.Publishing.{
  publishing, other_stream, opened_publisher, opened_publisher-IsConsistent,
}

abbrev event_output : ℕ → Output
event_output n = Output.market_event (record {
  symbol = 1;
  client_order_id = "";
  event = record {
    sequence_number = n;
    kind = EventKind.resumed;
    ts = pos 7;
    order_id = 0;
    passive_id = 0;
    owner_id = 0;
    other_owner = 0;
    side = buy;
    price = none;
    quantity = pos 0;
    limit_price = none;
    reject_reason = RejectReason.none;
  };
})

abbrev pub event : ℕ → Action
event n = Action.handles (event_output n)

abbrev pub recorded : Publisher × List FeedItem
unfolding publishing
recorded = value_or (opened_publisher, []) (act_all 1 (event 1 ∷ []) opened_publisher)

abbrev twice : Publisher × List FeedItem
unfolding publishing
twice =
    value_or (opened_publisher, [])
      (act_all 1 (event 1 ∷ Action.opens other_stream ∷ event 2 ∷ []) opened_publisher)

act_all-Records_example : Records 1 3 twice.0
unfolding publishing
act_all-Records_example =
    act_all-Records 1 1 3 1 (event 1 ∷ Action.opens other_stream ∷ event 2 ∷ []) opened_publisher
      twice.0 twice.1
      (make_publisher-Records 1 (1 ∷ []) true (record { queue_capacity = 8; replay_window = 4 })
        opened_publisher refl)
      (inr (refl, refl, inr (refl, refl, refl))) (omega arith) refl

recorded-Records : Records 1 2 recorded.0
unfolding publishing
recorded-Records =
    act_all-Records 1 1 2 1 (event 1 ∷ []) opened_publisher recorded.0 recorded.1
      (make_publisher-Records 1 (1 ∷ []) true (record { queue_capacity = 8; replay_window = 4 })
        opened_publisher refl)
      (inr (refl, refl, refl)) (omega arith) refl

recorded-IsConsistent : IsConsistent recorded.0
unfolding publishing
recorded-IsConsistent =
    let (q, e, d) =
      handle-IsConsistent (event_output 1) opened_publisher opened_publisher-IsConsistent in
    subst IsConsistent (sym (ap (λ o. value_or opened_publisher o) e)) d

-- It asks for the event that the history holds, and is then handled the next one, which it reads.
abbrev pub opened : Subscribed
unfolding publishing
opened =
    value_or (refused SubscribeError.none recorded.0)
      (subscribe "g" (1 ∷ []) ((1, 1) ∷ []) recorded.0)

abbrev resumed : Publisher × List FeedItem
unfolding publishing
resumed =
    value_or (recorded.0, [])
      (act_all 1 (event 2 ∷ Action.opens other_stream ∷ Action.reads 1 ∷ []) opened.publisher)

abbrev entry : Subscriber
entry = record {
  kind = SubscriberKind.market;
  live = (1, record { live = true; skip_below = 1 }) ∷ [];
}

act_all-Resumes_example :
    (t : Subscription) × (lookup 1 resumed.0.subscriptions ≡ some t)
    × Numbered 1 (items_about 1 (resumed.1 ++ t.items)) 3
unfolding publishing lookup
act_all-Resumes_example =
    act_all-Resumes "g" (1 ∷ []) ((1, 1) ∷ []) recorded.0 resumed.0 opened 1 1 2 3 1
      (event 2 ∷ Action.opens other_stream ∷ Action.reads 1 ∷ []) entry resumed.1
      recorded-IsConsistent (omega arith) (omega arith) recorded-Records refl (omega arith) refl
      refl (inr (refl, refl, refl)) (omega arith) refl refl
