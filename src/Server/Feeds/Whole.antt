-- ===== src/Server/Feeds/Whole.antt =====
-- From the commands of a worker to what a stream reads (server/src/worker.cpp, publisher.cpp).
use Prim.Native.String.{String}
use order_book_engine.Prelude.{
  ℕ, ◌+◌, ◌%◌, ◌∷◌, ◌<◌, ◌≤◌, false, inl, inr, ◌⊎◌, Bool-cases, arith, Assoc, length, some, List,
  [], ◌++◌, ◌≡◌, sym, ap, subst, ◌∙◌, lookup,
}
use order_book_engine.Book.State.{Book, word}
use order_book_engine.Server.Commands.{Stamped, Output}
use order_book_engine.Server.Worker.{Worker, serve_all}
use order_book_engine.Server.Worker.Streams.Flowing.{serve_all-Flows}
use order_book_engine.Server.Subscription.{FeedItem, Subscription}
use order_book_engine.Server.Publisher.{SubscriberKind, Publisher, Subscriber}
use order_book_engine.Server.Publisher.Subscribing.{
  Subscribed, subscribe, replay_count, wanted_symbols, live_states,
}
use order_book_engine.Server.Publisher.Consistent.{IsConsistent}
use order_book_engine.Server.Publisher.Symbols.{wanted_symbols-Distinct}
use order_book_engine.Server.Publisher.Replaying.{replayed}
use order_book_engine.Server.Publisher.Opening.{subscribe-IsOpened}
use order_book_engine.Server.Worker.Streams.Dating.{Stream}
use order_book_engine.Server.Publisher.Views.{view}
use order_book_engine.Server.Publisher.Views.Sessions.{Action, outputs_of, opens_in, act_all}
use order_book_engine.Server.Publisher.Views.Observing.{act_all-view}
use order_book_engine.Server.Feeds.{
  outputs_about, items_about, Stream-about, StartsWithSnapshot, Numbered,
}
use order_book_engine.Server.Feeds.Histories.{Records}
use order_book_engine.Server.Feeds.Starting.{check_request-member, live_states-live_from}
use order_book_engine.Server.Feeds.Resuming.{replayed-Numbered}
use order_book_engine.Server.Publisher.Joining.Others.{subscribe-Joins}
use order_book_engine.Server.Feeds.Asking.{
  asks_for, is_nil, serve_all-arrives, arrives-same, view-arrives,
}
use order_book_engine.Server.Feeds.Waiting.{view-StartsWithSnapshot}
use order_book_engine.Server.Feeds.Viewing.{waiting_state, items_about-append, view-Numbered}

-- Let a worker serve its items without an exception, and a publisher whose maps agree handle, in any
-- interleaving with other outputs and with reads, leavings and openings of streams, while ids do not
-- overflow, what the worker outputs about one of its symbols, whose book holds no events at first. A
-- subscriber that waits for the snapshot of the symbol at first, with nothing about it in its queue,
-- and is still registered at the end, has in its stream, of what is about the symbol, nothing yet; or
-- first a snapshot, and then every event from the one after the snapshot to the last one of the book,
-- numbered without a gap, modulo 2 ^ 64. It has the snapshot if the request for it is among the items
-- before any shutdown.
pub act_all-StartsWithSnapshot :
    (items : List Stamped) (w v : Worker) (outs : List Output) (symbol : ℕ) (b : Book)
    (acts : List Action) (id : ℕ) (p q : Publisher) (entry later : Subscriber) (s : Subscription)
    (taken : List FeedItem)
    → serve_all items w ≡ some (v, outs)
    → lookup symbol w.books ≡ some b
    → b.events ≡ []
    → b.next_seq < word
    → outputs_about symbol outs ≡ outputs_about symbol (outputs_of acts)
    → IsConsistent p
    → lookup id p.subscribers ≡ some entry
    → lookup id p.subscriptions ≡ some s
    → lookup symbol entry.live ≡ some waiting_state
    → items_about symbol s.items ≡ []
    → p.next_id + opens_in acts < word
    → act_all id acts p ≡ some (q, taken)
    → lookup id q.subscribers ≡ some later
    → (c : Book) × (lookup symbol v.books ≡ some c)
      × (t : Subscription) × (lookup id q.subscriptions ≡ some t)
      × StartsWithSnapshot (items_about symbol (taken ++ t.items)) c.next_seq
      × ((asks_for symbol id items ≡ false)
          ⊎ (is_nil (items_about symbol (taken ++ t.items)) ≡ false))
act_all-StartsWithSnapshot items w v outs symbol b acts id p q entry later s taken served book empty
      small same c known found waiting fresh left done there =
    let (after, has, cleared, stream) = serve_all-Flows items w v outs symbol b served book empty in
    let (t, kept, name, all) =
      act_all-view acts id p q entry later s taken c known found left done there in
    let shown = view id s.gateway_id (outputs_of acts) entry in
    let about : items_about symbol (taken ++ t.items) ≡ items_about symbol shown =
      ap (λ xs. items_about symbol xs) all
      ∙ items_about-append symbol s.items shown
      ∙ ap (λ xs. xs ++ items_about symbol shown) fresh in
    let starts =
      view-StartsWithSnapshot symbol id s.gateway_id (outputs_of acts) entry b.next_seq
        after.next_seq small waiting
        (Stream-about symbol b.next_seq after.next_seq outs (outputs_of acts) same stream) in
    let told : (asks_for symbol id items ≡ false) ⊎ (is_nil (items_about symbol shown) ≡ false) =
      elim (Bool-cases (asks_for symbol id items)) [
        | inr unasked ↦ inl unasked
        | inl asked ↦
            let arrived = serve_all-arrives symbol id items w v outs served asked in
            inr (
              view-arrives symbol id s.gateway_id (outputs_of acts) entry waiting
                (arrives-same symbol id outs (outputs_of acts) same arrived))
      ] in
    let Ends = λ (xs : List FeedItem).
      StartsWithSnapshot xs after.next_seq
      × ((asks_for symbol id items ≡ false) ⊎ (is_nil xs ≡ false)) in
    let (first, then) = subst Ends (sym about) (starts, told) in (after, has, t, kept, first, then)

-- The replay, and then the events of the run.
Numbered-append :
    (a b c : ℕ) (xs ys : List FeedItem)
    → Numbered a xs b
    → Numbered b ys c
    → Numbered a (xs ++ ys) c
Numbered-append a b c [] ys h k = subst (λ n. Numbered n ys c) h k
Numbered-append a b c (FeedItem.market_event e ∷ xs) ys (at, h) k =
    (at, Numbered-append ((a + 1) % word) b c xs ys h k)
Numbered-append a b c (FeedItem.snapshot_ready x ∷ xs) ys h k = h
Numbered-append a b c (FeedItem.reply x ∷ xs) ys h k = h

-- Let a publisher whose maps agree, and which holds the last events of a symbol up to some number, open
-- a subscription that asks for the events of the symbol from a number on that is at most the next one.
-- Let it then handle outputs, and reads, leavings and
-- openings of streams, in any order, while ids and queue capacities do not overflow, in which the events of the symbol are
-- numbered on, below 2 ^ 64. While the subscriber is registered, its stream has, of what is about the
-- symbol, every event from the number asked for to the last one, once and in order, and no snapshot.
pub act_all-Resumes :
    (g : String) (asked : List ℕ) (from : Assoc ℕ) (p q : Publisher) (r : Subscribed)
    (symbol wanted next end id : ℕ) (acts : List Action) (later : Subscriber)
    (taken : List FeedItem)
    → IsConsistent p
    → p.next_id + 1 + opens_in acts < word
    → p.options.queue_capacity + replay_count from p < word
    → Records symbol next p
    → lookup symbol from ≡ some wanted
    → wanted ≤ next
    → subscribe g asked from p ≡ some r
    → r.result.subscription ≡ some id
    → Stream symbol next (outputs_of acts) end
    → next + length (outputs_of acts) < word
    → act_all id acts r.publisher ≡ some (q, taken)
    → lookup id q.subscribers ≡ some later
    → (t : Subscription) × (lookup id q.subscriptions ≡ some t)
      × Numbered wanted (items_about symbol (taken ++ t.items)) end
act_all-Resumes g asked from p q r symbol wanted next end id acts later taken c left room
      (filed, recorded) from_there under opened given stream small done there =
    let ids_left : p.next_id + 1 < word = omega (arith, left) in
    let (joins, few) = subscribe-Joins g asked from p r c ids_left opened in
    let (ids, d, (good, recent, result, requests, known, s, found, name, held)) =
      subscribe-IsOpened g asked from p r id c ids_left room opened given in
    let symbols = wanted_symbols asked p in
    let member = check_request-member g symbol wanted symbols from p good from_there in
    let entry : Subscriber = record {
      kind = SubscriberKind.market;
      live = live_states symbols from [];
    } in
    let (t, kept, same_name, all) =
      act_all-view acts id r.publisher q entry later s taken d (rw ids known) (rw ids found)
        (omega (arith, left, few)) done there in
    let shown = view id s.gateway_id (outputs_of acts) entry in
    let about : items_about symbol (taken ++ t.items)
        ≡ items_about symbol (replayed symbols from p) ++ items_about symbol shown =
      ap (λ xs. items_about symbol xs) (all ∙ ap (λ xs. xs ++ shown) held)
      ∙ items_about-append symbol (replayed symbols from p) shown in
    let replay =
      replayed-Numbered symbol wanted next symbols from p filed recorded
        (wanted_symbols-Distinct asked p) member from_there recent under (omega (arith, small)) in
    let live =
      view-Numbered symbol id s.gateway_id (outputs_of acts) entry wanted next end
        (live_states-live_from symbol wanted symbols from from_there member) (inr (under, small))
        stream in
    (
      t,
      kept,
      subst (λ xs. Numbered wanted xs end) (sym about)
          (Numbered-append wanted next end (items_about symbol (replayed symbols from p))
            (items_about symbol shown) replay live),
    )
