-- ===== src/Server/Feeds/Private/Opened.antt =====
-- A stream from the call that opens it on (server/src/publisher.cpp, `subscribe_replies`).
use Prim.Native.String.{String}
use order_book_engine.Prelude.{
  ℕ, ◌+◌, ◌<◌, ◌≤◌, leb, Option, none, some, List, [], ◌∷◌, ◌++◌, ◌≡◌, refl, subst, ◌∙◌, inl, inr,
  arith, Option-cases, if_both, Assoc, lookup, lookup-insert, lookup-emplace, All, All-append,
  is_some, find_name, ==_refl,
}
use order_book_engine.Book.State.{word}
use order_book_engine.Server.Commands.{MarketEvent}
use order_book_engine.Server.Worker.{is_empty_id}
use order_book_engine.Server.Subscription.{FeedItem, Subscription, new_subscription}
use order_book_engine.Server.Publisher.{SubscriberKind, Subscriber, Publisher, kept_events}
use order_book_engine.Server.Publisher.Subscribing.{
  Subscribed, subscribe_replies, replay_count, wanted_symbols, live_states,
}
use order_book_engine.Server.Publisher.Consistent.{IsConsistent}
use order_book_engine.Server.Publisher.Opening.{subscribe-IsOpened}
use order_book_engine.Server.Publisher.Replaying.{events_from, wanted_events, replayed}
use order_book_engine.Server.Publisher.Joining.{Request, open_kind, open_stream, joined}
use order_book_engine.Server.Publisher.Joining.Others.{Joins, JoinsIn, open_stream-JoinsIn}
use order_book_engine.Server.Publisher.Views.Sessions.{Action, opens_in, act_all}
use order_book_engine.Server.Feeds.Private.{Suits, AllSuit, IsPlain, act_all-AllSuit}

events_from-AllSuit :
    (g : String) (wanted : ℕ) (es : List MarketEvent)
    → AllSuit SubscriberKind.market g (events_from wanted es)
events_from-AllSuit g wanted [] = tt
events_from-AllSuit g wanted (e ∷ es) =
    if_both (AllSuit SubscriberKind.market g) (leb wanted e.event.sequence_number) _ _
      (λ asked. (tt, events_from-AllSuit g wanted es)) (λ early. events_from-AllSuit g wanted es)

wanted_events-AllSuit :
    (g : String) (wanted : Option ℕ) (es : List MarketEvent)
    → AllSuit SubscriberKind.market g (wanted_events wanted es)
wanted_events-AllSuit g none es = tt
wanted_events-AllSuit g (some wanted) es = events_from-AllSuit g wanted es

replayed-AllSuit :
    (g : String) (symbols : List ℕ) (from : Assoc ℕ) (p : Publisher)
    → AllSuit SubscriberKind.market g (replayed symbols from p)
replayed-AllSuit g [] from p = tt
replayed-AllSuit g (symbol ∷ symbols) from p =
    All-append (λ item. Suits SubscriberKind.market g item)
      (wanted_events (lookup symbol from) (kept_events (lookup symbol p.history)))
      (replayed symbols from p)
      (wanted_events-AllSuit g (lookup symbol from) (kept_events (lookup symbol p.history)))
      (replayed-AllSuit g symbols from p)

-- What a call leaves that gave the subscription `id`.
abbrev IsReady : SubscriberKind → String → ℕ → Subscribed → Type 0
IsReady kind g id r =
    (entry : Subscriber) × (lookup id r.publisher.subscribers ≡ some entry)
    × (entry.kind ≡ kind)
    × IsPlain entry
    × (s : Subscription) × (lookup id r.publisher.subscriptions ≡ some s)
    × (s.gateway_id ≡ g)
    × AllSuit kind g s.items

subscribe_replies-IsReady :
    (g : String) (p : Publisher) (id : ℕ)
    → IsConsistent p
    → (subscribe_replies g p).result.subscription ≡ some id
    → IsReady SubscriberKind.replies g id (subscribe_replies g p)
unfolding subscribe_replies
subscribe_replies-IsReady g p id c =
    let ok =
      λ (r : Subscribed). r.result.subscription ≡ some id → IsReady SubscriberKind.replies g id r in
    let new_id : lookup p.next_id p.subscribers ≡ none =
      elim (Option-cases (lookup p.next_id p.subscribers)) [
        | inl free ↦ free
        | inr (entry, there) ↦ absurd (omega (arith, c.fresh p.next_id entry there))
      ] in
    if_both ok (is_empty_id g) _ _ (λ empty given. absurd (ground (arith, given)))
      (λ named.
        if_both ok p.closed _ _ (λ closed given. absurd (ground (arith, given)))
          (λ running.
            if_both ok (is_some (find_name g p.replies_by_gateway)) _ _
              (λ taken given. absurd (ground (arith, given)))
              (λ free given.
                let ids : p.next_id ≡ id = ground (arith, given) in
                let entry : Subscriber = record { kind = SubscriberKind.replies; live = [] } in
                let there =
                  lookup-emplace p.next_id p.next_id entry p.subscribers
                  ∙ rw (new_id, ==_refl p.next_id) refl in
                let s = new_subscription p.next_id g p.options.queue_capacity in
                rw (← ids) (
                  entry,
                  there,
                  refl,
                  (λ k. refl),
                  s,
                  lookup-insert p.next_id p.next_id s p.subscriptions ∙ rw (==_refl p.next_id) refl,
                  refl,
                  tt,
                ))))

open_stream-IsReady :
    (kind : SubscriberKind) (x : Request) (p : Publisher) (r : Subscribed) (id : ℕ)
    → IsConsistent p
    → p.next_id + 1 < word
    → p.options.queue_capacity + replay_count x.from_seq p < word
    → open_kind kind x p ≡ some r
    → r.result.subscription ≡ some id
    → IsReady kind x.gateway_id id r
unfolding open_kind
open_stream-IsReady SubscriberKind.replies x p r id c ids_left room done given =
    let same : subscribe_replies x.gateway_id p ≡ r = ground (arith, done) in
    subst (λ y. y.result.subscription ≡ some id → IsReady SubscriberKind.replies x.gateway_id id y)
      same (subscribe_replies-IsReady x.gateway_id p id c) given
open_stream-IsReady SubscriberKind.market x p r id c ids_left room done given =
    let (ids, d, (good, recent, result, requests, known, s, found, name, held)) =
      subscribe-IsOpened x.gateway_id x.symbols x.from_seq p r id c ids_left room done given in
    (
      record {
        kind = SubscriberKind.market;
        live = live_states (wanted_symbols x.symbols p) x.from_seq [];
      },
      rw ids known,
      refl,
      (λ k. absurd (ground (arith, k))),
      s,
      rw ids found,
      name,
      rw held (replayed-AllSuit x.gateway_id (wanted_symbols x.symbols p) x.from_seq p),
    )

-- Let a publisher whose maps agree open a stream, and then handle outputs, and reads, leavings and
-- openings of streams, in any order, while ids and queue capacities do not overflow. While its
-- subscriber is registered, a stream of replies has read, and holds, only replies to its own gateway,
-- and a market stream no reply.
pub act_all-Suits :
    (x : Request) (acts : List Action) (id : ℕ) (p q : Publisher) (r : Subscribed)
    (later : Subscriber) (taken : List FeedItem)
    → IsConsistent p
    → p.next_id + 1 + opens_in acts < word
    → p.options.queue_capacity + replay_count x.from_seq p < word
    → open_stream x p ≡ some r
    → r.result.subscription ≡ some id
    → act_all id acts r.publisher ≡ some (q, taken)
    → lookup id q.subscribers ≡ some later
    → (t : Subscription) × (lookup id q.subscriptions ≡ some t)
      × All (λ item. Suits x.kind x.gateway_id item) (taken ++ t.items)
act_all-Suits x acts id p q r later taken c left room opened given done there =
    let ids_left : p.next_id + 1 < word = omega (arith, left) in
    let (entry, known, kind, plain, s, found, name, before) =
      open_stream-IsReady x.kind x p r id c ids_left room opened given in
    let joins : Joins p r.publisher =
      subst (λ o. JoinsIn p (joined o)) opened (open_stream-JoinsIn x p c ids_left) in
    let few : r.publisher.next_id ≤ p.next_id + 1 = elim joins.number [
      | inl same ↦ omega (arith, same)
      | inr next ↦ omega (arith, next)
    ] in
    rw (← kind, ← name)
      (act_all-AllSuit acts id r.publisher q entry later s taken joins.consistent known found
        (omega (arith, left, few)) plain (rw (kind, name) before) done there)
