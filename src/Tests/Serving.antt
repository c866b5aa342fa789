-- ===== src/Tests/Serving.antt =====
-- Streams of the gRPC service.
use order_book_engine.Prelude.{
  ℕ, true, false, none, some, Option, List, [], ◌∷◌, ◌++◌, ◌≡◌, refl, arith, lookup, ◌⊎◌, All,
  length,
}
use order_book_engine.Server.Commands.{Output}
use order_book_engine.Server.Subscription.{Subscription}
use order_book_engine.Server.Publisher.{Publisher, SubscriberKind}
use order_book_engine.Server.Publisher.Consistent.{IsConsistent}
use order_book_engine.Server.Publisher.Views.Sessions.{Action}
use order_book_engine.Types.{RejectReason}
use order_book_engine.Server.Publisher.Subscribing.{Subscribed, SubscribeError, refused}
use order_book_engine.Server.Publisher.Joining.{Request, open_stream}
use order_book_engine.Server.EngineFeedServer.Room.{IsBounded}
use order_book_engine.Prelude.{pos}
use Prim.Native.String.{String}
use order_book_engine.Server.Feeds.Private.{Suits}
use order_book_engine.Server.Feeds.Private.Opened.{act_all-Suits}
use order_book_engine.Server.EngineFeedServer.{StatusCode, Turn, Pumped, pump, serve_subscribe}
use order_book_engine.Server.EngineFeedServer.Leaving.{IsTurnedAway, IsGone, serve_subscribe-Leaves}
use order_book_engine.Server.Publisher.Views.Sessions.{act_all}
use order_book_engine.Tests.Data.{value_or}
use order_book_engine.Server.Subscription.{FeedItem}
use order_book_engine.Tests.Publishing.{
  publishing, other_stream, opened_publisher, opened_publisher-IsConsistent,
}
use order_book_engine.Tests.Resuming.{event, opened}

abbrev turn : List Action → List Action → Turn
turn before between = record {
  cancelled = false;
  before = before;
  between = between;
  writes = true;
}

abbrev close_outbox : Action
close_outbox = Action.handles Output.outbox_closed

abbrev status_of : Option Pumped → Option StatusCode
status_of none = none
status_of (some r) = r.status

abbrev sent_by : Option Pumped → ℕ
sent_by none = 0
sent_by (some r) = length r.sent

abbrev left_by : Option Subscription → ℕ
left_by none = 0
left_by (some s) = length s.items

abbrev publisher_of : Option Pumped → Publisher
publisher_of none = opened_publisher
publisher_of (some r) = r.publisher

-- A first event is sent. A second one comes, and then the end, between an empty read and the question
-- whether the stream has ended: the handler ends, and the event stays in the queue.
abbrev closing : Option Pumped
unfolding publishing pump
closing =
    pump SubscriberKind.market 1 (turn [] [] ∷ turn [] (event 2 ∷ close_outbox ∷ []) ∷ [])
      opened.publisher

closing_status : status_of closing ≡ some StatusCode.unavailable
unfolding publishing pump
closing_status = refl

closing_sent : sent_by closing ≡ 1
unfolding publishing pump
closing_sent = refl

closing_left : left_by (lookup 1 (publisher_of closing).subscriptions) ≡ 1
unfolding publishing pump lookup
closing_left = refl

opened_publisher-IsBounded : IsBounded opened_publisher
unfolding publishing lookup
opened_publisher-IsBounded s = omega arith

-- Another gateway opens a stream, and then the outbox is closed.
abbrev turns : List Turn
turns = turn (Action.opens other_stream ∷ []) (close_outbox ∷ []) ∷ []

serve_subscribe-Leaves_example :
    (r : Pumped) × (serve_subscribe "g" [] [] turns opened_publisher ≡ some r)
    × IsConsistent r.publisher
    × (IsTurnedAway opened_publisher r ⊎ ((r.status ≡ none) ⊎ IsGone 1 r.publisher))
unfolding publishing
serve_subscribe-Leaves_example =
    serve_subscribe-Leaves "g" [] [] turns opened_publisher opened_publisher-IsConsistent
      opened_publisher-IsBounded (omega arith) (omega arith) (((omega arith, tt), (tt, tt)), tt)

-- A stream of replies of the gateway "g", while another one is opened: a reply to each of them, an event
-- and a snapshot.
abbrev replies_of : String → Request
replies_of g = record { kind = SubscriberKind.replies; gateway_id = g; symbols = []; from_seq = [] }

abbrev reply_to : String → Action
reply_to g = Action.handles (
    Output.reply (record {
      gateway_id = g;
      client_order_id = "first";
      account_id = 9;
      order_id = 1;
      symbol = 1;
      reject_reason = RejectReason.none;
      unaccepted_quantity = pos 0;
      rested_price = none;
    }))

abbrev mixed : List Action
mixed =
    reply_to "g"
    ∷ Action.opens (replies_of "h")
    ∷ reply_to "h"
    ∷ Action.reads 1
    ∷ event 1
    ∷ reply_to "g"
    ∷ []

abbrev subscribed : Subscribed
unfolding publishing
subscribed =
    value_or (refused SubscribeError.none opened_publisher)
      (open_stream (replies_of "g") opened_publisher)

abbrev mixed_end : Publisher × List FeedItem
unfolding publishing
mixed_end = value_or (opened_publisher, []) (act_all 1 mixed subscribed.publisher)

act_all-Suits_example :
    (t : Subscription) × (lookup 1 mixed_end.0.subscriptions ≡ some t)
    × All (λ item. Suits SubscriberKind.replies "g" item) (mixed_end.1 ++ t.items)
unfolding publishing lookup
act_all-Suits_example =
    act_all-Suits (replies_of "g") mixed 1 opened_publisher mixed_end.0 subscribed
      (record { kind = SubscriberKind.replies; live = [] }) mixed_end.1
      opened_publisher-IsConsistent (omega arith) (omega arith) refl refl refl refl

-- One reply was read, and one waits.
mixed_read : length mixed_end.1 ≡ 1
unfolding publishing lookup
mixed_read = refl

mixed_left : left_by (lookup 1 mixed_end.0.subscriptions) ≡ 1
unfolding publishing lookup
mixed_left = refl
