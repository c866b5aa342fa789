-- ===== src/Tests/Whole.antt =====
-- A worker, the publisher and a stream that waits for a snapshot.
use order_book_engine.Prelude.{
  Option, none, length, some, List, [], ◌∷◌, ◌++◌, ◌≡◌, refl, arith, lookup, true, false, ◌⊎◌,
}
use order_book_engine.Book.State.{Book}
use order_book_engine.Server.Commands.{Command, Stamped, Output}
use order_book_engine.Server.Worker.{Worker, serve_all}
use order_book_engine.Server.Subscription.{FeedItem, Subscription}
use order_book_engine.Server.Publisher.{Publisher, Subscriber}
use order_book_engine.Server.Publisher.Views.Sessions.{Action, act_all}
use order_book_engine.Server.Feeds.{items_about, StartsWithSnapshot}
use order_book_engine.Types.{buy}
use order_book_engine.Server.Feeds.Asking.{asks_for, is_nil}
use order_book_engine.Server.Feeds.Whole.{act_all-StartsWithSnapshot}
use order_book_engine.Tests.Data.{worker, empty_book, limit_order, stamped, value_or}
use order_book_engine.Tests.Publishing.{
  publishing, other_stream, one_subscriber, one_subscriber-IsConsistent, entry, subscription,
}

-- A snapshot for the subscriber, and then an order, which is accepted and rests.
abbrev commands : List Stamped
commands =
    stamped 1 5 (Command.take_snapshot (record { symbol = 1; subscriber = 1 }))
    ∷ stamped 2 6 (
        Command.new_order
          (record { client_order_id = "first"; symbol = 1; order = limit_order 0 9 buy 100 5 }))
    ∷ []

abbrev served : Worker × List Output
unfolding publishing
served = value_or (worker, []) (serve_all commands worker)

abbrev handled : List Output → List Action
handled [] = []
handled (o ∷ os) = Action.handles o ∷ handled os

-- Another stream is opened first.
abbrev actions : List Action
unfolding publishing
actions = Action.opens other_stream ∷ handled served.1

abbrev finished : Publisher × List FeedItem
unfolding publishing
finished = value_or (one_subscriber, []) (act_all 1 actions one_subscriber)

abbrev live_entry : Subscriber
live_entry = record entry { live = (1, record { live = true; skip_below = 0 }) ∷ [] }

abbrev items_left : Option Subscription → List FeedItem
items_left none = []
items_left (some s) = s.items

act_all-StartsWithSnapshot_example :
    (c : Book) × (lookup 1 served.0.books ≡ some c)
    × (t : Subscription) × (lookup 1 finished.0.subscriptions ≡ some t)
    × StartsWithSnapshot (items_about 1 (finished.1 ++ t.items)) c.next_seq
    × ((asks_for 1 1 commands ≡ false) ⊎ (is_nil (items_about 1 (finished.1 ++ t.items)) ≡ false))
unfolding publishing
act_all-StartsWithSnapshot_example =
    act_all-StartsWithSnapshot commands worker served.0 served.1 1 empty_book actions 1
      one_subscriber finished.0 entry live_entry subscription finished.1 refl refl refl
      (omega arith) refl one_subscriber-IsConsistent refl refl refl refl (omega arith) refl refl

-- The stream holds the snapshot and the two events of the order.
events_sent : length (items_about 1 (items_left (lookup 1 finished.0.subscriptions))) ≡ 3
unfolding publishing lookup
events_sent = refl
