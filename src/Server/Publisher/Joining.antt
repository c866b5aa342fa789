-- ===== src/Server/Publisher/Joining.antt =====
-- A call of subscribe or subscribe_replies, as a step among others (server/src/publisher.cpp).
pub mod Others
use Prim.Native.String.{String}
use order_book_engine.Prelude.{
  ℕ, ◌+◌, ◌%◌, ◌<◌, ◌≤◌, leb, Bool, true, false, Option, none, some, List, [], ◌∷◌, ◌≡◌, refl, sym,
  ap, subst, ◌∙◌, inl, inr, ◌⊎◌, arith, Bool-cases, Option-cases, if_both, if◌then◌else◌, Assoc,
  lookup, insert, emplace, lookup-insert, lookup-emplace, ◌==◌, ==_iff, ==_refl, is_some, find_name,
  length,
}
use order_book_engine.Book.State.{word}
use order_book_engine.Server.Commands.{MarketEvent}
use order_book_engine.Server.Worker.{is_empty_id}
use order_book_engine.Server.Subscription.{FeedItem, Subscription, new_subscription, try_push}
use order_book_engine.Server.Publisher.{
  SubscriberKind, SymbolState, Subscriber, Publisher, PublisherStats, by_gateway, kept_events,
}
use order_book_engine.Server.Publisher.Subscribing.{
  SubscribeError, Subscribed, refused, count_too_old, count_replayed, enter, wanted_symbols,
  first_subscription, open_with, open_market, if_good, check_request, subscribe, subscribe_replies,
  replay, replay_symbol, replay_all, and_then, pushed_or_throw, is_too_old, live_states,
}
use order_book_engine.Server.Publisher.Consistent.{
  IsConsistent, Continues, Continues-refl, Continues-trans, try_push-Continues,
}
use order_book_engine.Server.Publisher.Consistent.Entering.{enter-IsConsistent}
use order_book_engine.Server.Publisher.Recording.Handling.{SameRecords}

-- The arguments of a call; a stream of replies has no symbols.
pub record Request : Type 0 where
  pub kind : SubscriberKind
  pub gateway_id : String
  pub symbols : List ℕ
  pub from_seq : Assoc ℕ

unfoldable pub open_kind : SubscriberKind → Request → Publisher → Option Subscribed
unfolding subscribe subscribe_replies
open_kind SubscriberKind.market q p = subscribe q.gateway_id q.symbols q.from_seq p
open_kind SubscriberKind.replies q p = some (subscribe_replies q.gateway_id p)

abbrev pub open_stream : Request → Publisher → Option Subscribed
open_stream q p = open_kind q.kind q p

-- The publisher after a call, where it did not throw.
abbrev pub joined : Option Subscribed → Option Publisher
joined none = none
joined (some r) = some r.publisher

-- The replay goes on with the queue that it was given.
abbrev ContinuesIn : Subscription → Option Subscription → Type 0
ContinuesIn s none = Unit
ContinuesIn s (some t) = Continues s t

and_then-ContinuesIn :
    (s : Subscription) (o : Option Subscription) (f : Subscription → Option Subscription)
    → ContinuesIn s o
    → ((t : Subscription) → ContinuesIn t (f t))
    → ContinuesIn s (and_then o f)
and_then-ContinuesIn s none f h next = tt
and_then-ContinuesIn s (some t) f h next = elim (Option-cases (f t)) [
  | inl e ↦ rw e tt
  | inr (u, e) ↦ rw e (Continues-trans h (subst (ContinuesIn t) e (next t)))
]

pushed-ContinuesIn :
    (s : Subscription) (o : Bool × Subscription)
    → Continues s o.1
    → ContinuesIn s (pushed_or_throw o)
pushed-ContinuesIn s (true, t) h = h
pushed-ContinuesIn s (false, t) h = tt

replay-ContinuesIn :
    (wanted : ℕ) (es : List MarketEvent) (s : Subscription) → ContinuesIn s (replay wanted es s)
unfolding replay
replay-ContinuesIn wanted [] s = Continues-refl s
replay-ContinuesIn wanted (e ∷ es) s =
    and_then-ContinuesIn s _ (replay wanted es)
      (if_both (ContinuesIn s) (leb wanted e.event.sequence_number) _ _
        (λ asked.
          pushed-ContinuesIn s (try_push (FeedItem.market_event e) s)
            (try_push-Continues (FeedItem.market_event e) s))
        (λ early. Continues-refl s))
      (λ t. replay-ContinuesIn wanted es t)

replay_symbol-ContinuesIn :
    (symbol : ℕ) (wanted : Option ℕ) (p : Publisher) (s : Subscription)
    → ContinuesIn s (replay_symbol symbol wanted p s)
replay_symbol-ContinuesIn symbol none p s = Continues-refl s
replay_symbol-ContinuesIn symbol (some wanted) p s = replay-ContinuesIn wanted _ s

replay_all-ContinuesIn :
    (symbols : List ℕ) (from : Assoc ℕ) (p : Publisher) (s : Subscription)
    → ContinuesIn s (replay_all symbols from p s)
unfolding replay_all
replay_all-ContinuesIn [] from p s = Continues-refl s
replay_all-ContinuesIn (symbol ∷ symbols) from p s =
    and_then-ContinuesIn s _ (replay_all symbols from p)
      (replay_symbol-ContinuesIn symbol (lookup symbol from) p s)
      (λ t. replay_all-ContinuesIn symbols from p t)

-- What holds of an exception, of each refusal and of each new subscriber, holds of the call.
module _ (P : Option Publisher → Type 0) (p : Publisher) (thrown : P none) (same : P (some p))
    (counted : P (some (count_too_old p)))
    (entered : (kind : SubscriberKind) (g : String) (live : Assoc SymbolState) (capacity : ℕ)
        (s : Subscription) (stats : PublisherStats)
      → find_name g (by_gateway kind p) ≡ none
      → Continues (new_subscription p.next_id g capacity) s
      → P (some (enter kind g live s (record p { stats = stats })))) where
  abbrev Of : Option Subscribed → Type 0
  Of o = P (joined o)

  opened-Of :
      (g : String) (symbols : List ℕ) (from : Assoc ℕ) (capacity : ℕ) (o : Option Subscription)
      → find_name g p.market_by_gateway ≡ none
      → ContinuesIn (new_subscription p.next_id g capacity) o
      → Of (open_with g symbols from o p)
  opened-Of g symbols from capacity none free h = thrown
  opened-Of g symbols from capacity (some s) free h =
      entered SubscriberKind.market g (live_states symbols from []) capacity s
        (count_replayed s p).stats free h

  open_market-Of :
      (g : String) (symbols : List ℕ) (from : Assoc ℕ) → Of (open_market g symbols from p)
  unfolding open_market
  open_market-Of g symbols from =
      let first = first_subscription g from p in
      if_both Of p.closed _ _ (λ closed. same)
        (λ running.
          if_both Of (is_some (find_name g p.market_by_gateway)) _ _ (λ taken. same)
            (λ free.
              if_both Of (is_too_old from p) _ _ (λ old. counted)
                (λ recent.
                  opened-Of g symbols from first.capacity (replay_all symbols from p first)
                    (ground (arith, free)) (replay_all-ContinuesIn symbols from p first))))

  if_good-Of : (why : SubscribeError) (o : Option Subscribed) → Of o → Of (if_good why p o)
  if_good-Of SubscribeError.none o h = h
  if_good-Of SubscribeError.empty_gateway_id o h = same
  if_good-Of SubscribeError.gateway_already_subscribed o h = same
  if_good-Of SubscribeError.unknown_symbol o h = same
  if_good-Of SubscribeError.closed o h = same
  if_good-Of SubscribeError.bad_from_seq o h = same
  if_good-Of SubscribeError.too_old o h = same

  replies-Of : (g : String) → Of (some (subscribe_replies g p))
  unfolding subscribe_replies
  replies-Of g =
      let ok = λ (r : Subscribed). P (some r.publisher) in
      if_both ok (is_empty_id g) _ _ (λ empty. same)
        (λ named.
          if_both ok p.closed _ _ (λ closed. same)
            (λ running.
              if_both ok (is_some (find_name g p.replies_by_gateway)) _ _ (λ taken. same)
                (λ free.
                  let s = new_subscription p.next_id g p.options.queue_capacity in
                  entered SubscriberKind.replies g [] p.options.queue_capacity s p.stats
                    (ground (arith, free)) (Continues-refl s))))

  pub open_kind-Of : (kind : SubscriberKind) (q : Request) → Of (open_kind kind q p)
  unfolding open_kind subscribe
  open_kind-Of SubscriberKind.market q =
      let symbols = wanted_symbols q.symbols p in
      if_good-Of (check_request q.gateway_id symbols q.from_seq p) _
        (open_market-Of q.gateway_id symbols q.from_seq)
  open_kind-Of SubscriberKind.replies q = replies-Of q.gateway_id
