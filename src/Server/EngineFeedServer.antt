-- ===== src/Server/EngineFeedServer.antt =====
-- The handlers of the gRPC service (server/src/engine_feed_server.cpp). What the environment of a
-- handler does is given turn by turn: whether the client has left, the steps of the publisher and of
-- the other handlers, and whether a write succeeds. A message stands for the item that it is filled
-- from; texts and log lines are not here. `none` stands for an exception.
pub mod Room
pub mod Leaving
use Prim.Native.String.{String}
use order_book_engine.Prelude.{
  ℕ, Bool, true, false, Option, none, some, List, [], ◌∷◌, if◌then◌else◌, Assoc, lookup,
}
use order_book_engine.Server.Subscription.{FeedItem, EndReason, Subscription, is_ended}
use order_book_engine.Server.Publisher.{SubscriberKind, Publisher, read, unsubscribe}
use order_book_engine.Server.Publisher.Subscribing.{
  SubscribeError, Subscribed, subscribe, subscribe_replies,
}
use order_book_engine.Server.Publisher.Views.Sessions.{Action, act_all}

-- The status codes that the service answers with.
pub data StatusCode : Type 0 where
  invalid_argument already_exists not_found unavailable : StatusCode
  out_of_range internal cancelled resource_exhausted : StatusCode

abbrev pub refusal : SubscribeError → StatusCode
refusal SubscribeError.empty_gateway_id = StatusCode.invalid_argument
refusal SubscribeError.gateway_already_subscribed = StatusCode.already_exists
refusal SubscribeError.unknown_symbol = StatusCode.not_found
refusal SubscribeError.closed = StatusCode.unavailable
refusal SubscribeError.bad_from_seq = StatusCode.invalid_argument
refusal SubscribeError.too_old = StatusCode.out_of_range
refusal SubscribeError.none = StatusCode.internal

-- The switch after the loop.
abbrev pub end_status : EndReason → StatusCode
end_status EndReason.slow_consumer = StatusCode.resource_exhausted
end_status EndReason.shutdown = StatusCode.unavailable
end_status EndReason.unsubscribed = StatusCode.cancelled
end_status EndReason.none = StatusCode.cancelled

-- The two functions `fill`: whether an item becomes a message.
abbrev pub fills : SubscriberKind → FeedItem → Bool
fills SubscriberKind.market (FeedItem.reply r) = false
fills SubscriberKind.market _ = true
fills SubscriberKind.replies (FeedItem.reply r) = true
fills SubscriberKind.replies _ = false

-- One turn of the loop: `context->IsCancelled()`, what happens until the handler reads its queue, what
-- happens between an empty read and `ended()`, and what a write returns.
pub record Turn : Type 0 where
  pub cancelled : Bool
  pub before : List Action
  pub between : List Action
  pub writes : Bool

-- No status: the handler still runs.
pub record Pumped : Type 0 where
  pub publisher : Publisher
  pub sent : List FeedItem
  pub status : Option StatusCode

-- The destructor of `leave`.
abbrev pub leave_with : StatusCode → ℕ → Publisher → Option Pumped
leave_with code id p = some (record { publisher = unsubscribe id p; sent = []; status = some code })

abbrev pub still_running : Publisher → Option Pumped
still_running p = some (record { publisher = p; sent = []; status = none })

abbrev pub and_send : FeedItem → Option Pumped → Option Pumped
and_send item none = none
and_send item (some r) = some (record r { sent = item ∷ r.sent })

abbrev pub then_go_on :
    Option (Publisher × List FeedItem) → (Publisher → Option Pumped) → Option Pumped
then_go_on none f = none
then_go_on (some (p, items)) f = f p

abbrev pub reason_of : Option Subscription → EndReason
reason_of none = EndReason.none
reason_of (some s) = s.end_reason

-- `if (sub.ended()) break;`
abbrev pub unless_ended : ℕ → (Publisher → Option Pumped) → Publisher → Option Pumped
unless_ended id next p =
    let reason = reason_of (lookup id p.subscriptions) in
    if is_ended reason then leave_with (end_status reason) id p else next p

abbrev pub send :
    SubscriberKind → ℕ → Turn → (Publisher → Option Pumped) → FeedItem → Publisher → Option Pumped
send kind id t next item p =
    if fills kind item
    then (if t.writes then and_send item (next p) else leave_with StatusCode.cancelled id p)
    else next p

-- After the read of the turn.
abbrev pub after_read :
    SubscriberKind
    → ℕ
    → Turn
    → (Publisher → Option Pumped)
    → Option FeedItem × Publisher
    → Option Pumped
after_read kind id t next (none, p) = then_go_on (act_all id t.between p) (unless_ended id next)
after_read kind id t next (some item, p) = send kind id t next item p

unfoldable pub pump : SubscriberKind → ℕ → List Turn → Publisher → Option Pumped
unfolding act_all read
pump kind id [] p = still_running p
pump kind id (t ∷ ts) p =
    if t.cancelled
    then leave_with StatusCode.cancelled id p
    else then_go_on (act_all id t.before p)
        (λ q. after_read kind id t (pump kind id ts) (read id q))

abbrev pub refuse : SubscribeError → Publisher → Option Pumped
refuse why p = some (record { publisher = p; sent = []; status = some (refusal why) })

abbrev pub pump_opened :
    SubscriberKind → List Turn → Publisher → SubscribeError → Option ℕ → Option Pumped
pump_opened kind turns p SubscribeError.none (some id) = pump kind id turns p
pump_opened kind turns p SubscribeError.none none = none
pump_opened kind turns p why sub = refuse why p

abbrev pub pump_subscribed : SubscriberKind → List Turn → Option Subscribed → Option Pumped
pump_subscribed kind turns none = none
pump_subscribed kind turns (some r) =
    pump_opened kind turns r.publisher r.result.error r.result.subscription

-- `Subscribe`
unfoldable pub serve_subscribe : String → List ℕ → Assoc ℕ → List Turn → Publisher → Option Pumped
unfolding subscribe pump
serve_subscribe gateway_id symbols from turns p =
    pump_subscribed SubscriberKind.market turns (subscribe gateway_id symbols from p)

-- `SubscribeReplies`
unfoldable pub serve_replies : String → List Turn → Publisher → Option Pumped
unfolding subscribe_replies pump
serve_replies gateway_id turns p =
    pump_subscribed SubscriberKind.replies turns (some (subscribe_replies gateway_id p))
