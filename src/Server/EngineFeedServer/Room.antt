-- ===== src/Server/EngineFeedServer/Room.antt =====
-- What the steps of the other handlers need, so that none of them throws (server/src/publisher.cpp).
use Prim.Native.Nat.{◌*◌}
use order_book_engine.Prelude.{
  ℕ, ◌+◌, ◌<◌, ◌≤◌, ltb, Option, some, List, [], ◌∷◌, ◌++◌, ◌≡◌, refl, sym, ap, subst, ◌∙◌, inl,
  inr, arith, if_both, Assoc, length, length-append, ◌==◌, All,
}
use order_book_engine.Book.State.{word}
use order_book_engine.Server.Commands.{Output, MarketEvent}
use order_book_engine.Server.Subscription.{FeedItem, EndReason}
use order_book_engine.Server.Publisher.{
  SubscriberKind, Publisher, PublisherOptions, history_of, trim, drop_first, remember, read,
  unsubscribe,
}
use order_book_engine.Server.Publisher.Subscribing.{Subscribed, replay_count, count_from}
use order_book_engine.Server.Publisher.Consistent.{IsConsistent}
use order_book_engine.Server.Publisher.Consistent.Dropping.{drop-IsConsistent}
use order_book_engine.Server.Publisher.Consistent.Handling.{handle-IsConsistent, read-IsConsistent}
use order_book_engine.Server.Publisher.Opening.{subscribe-Answers}
use order_book_engine.Server.Publisher.Recording.Handling.{
  SameHistory, noted, handle-SameRecords, drop-SameRecords, read-SameRecords, history-remember,
}
use order_book_engine.Server.Publisher.Joining.{Request, open_kind, joined}
use order_book_engine.Server.Publisher.Joining.Others.{
  Notes, open_stream-Notes, Joins, JoinsIn, open_stream-JoinsIn,
}
use order_book_engine.Server.Publisher.Views.Sessions.{
  Action, grows, opens_in, act, act_all, without_items,
}

-- No history is longer than the replay window.
abbrev pub IsBounded : Publisher → Type 0
IsBounded p = (s : ℕ) → length (history_of s p) ≤ p.options.replay_window

-- The queue of a stream that an action opens has room for all that can be replayed.
abbrev pub RoomFor : PublisherOptions → Action → Type 0
RoomFor o (Action.opens x) = o.queue_capacity + length x.from_seq * o.replay_window < word
RoomFor o (Action.handles out) = Unit
RoomFor o (Action.reads j) = Unit
RoomFor o (Action.leaves j) = Unit

-- The maps agree, the histories are bounded, and `n` ids are left.
pub record Able (o : PublisherOptions) (n : ℕ) (p : Publisher) : Type 0 where
  pub consistent : IsConsistent p
  pub bounded : IsBounded p
  pub options : p.options ≡ o
  pub ids_left : p.next_id + n < word

length-drop_first :
    (window : ℕ) (es : List MarketEvent) → length es ≤ window + 1 → length (drop_first es) ≤ window
length-drop_first window [] small = omega arith
length-drop_first window (e ∷ es) small = omega (arith, small)

length-trim :
    (window : ℕ) (es : List MarketEvent) (e : MarketEvent)
    → length es ≤ window
    → length (trim window (es ++ e ∷ [])) ≤ window
length-trim window es e small =
    let l = length-append es (e ∷ []) in
    if_both (λ xs. length xs ≤ window) (window == 0) _ _ (λ z. omega arith)
      (λ nz.
        if_both (λ xs. length xs ≤ window) (ltb window (length (es ++ e ∷ []))) _ _
          (λ long. length-drop_first window (es ++ e ∷ []) (omega (arith, l, small)))
          (λ short. ground (arith, short)))

remember-IsBounded : (e : MarketEvent) (p : Publisher) → IsBounded p → IsBounded (remember e p)
unfolding remember
remember-IsBounded e p h s =
    let fits = λ (es : List MarketEvent). length es ≤ p.options.replay_window in
    subst fits (sym (history-remember s e p)) (
      if_both fits (s == e.symbol) _ _
        (λ mine. length-trim p.options.replay_window (history_of e.symbol p) e (h e.symbol))
        (λ other. h s))

noted-IsBounded : (out : Output) (p : Publisher) → IsBounded p → IsBounded (noted out p)
unfolding remember
noted-IsBounded (Output.market_event e) p h = remember-IsBounded e p h
noted-IsBounded (Output.reply r) p h = h
noted-IsBounded (Output.snapshot_ready r) p h = h
noted-IsBounded Output.outbox_closed p h = h

pub SameHistory-IsBounded : (p q : Publisher) → SameHistory p q → IsBounded p → IsBounded q
SameHistory-IsBounded p q (a, b, c) h s = rw (a, c) (h s)

count_from_le : (wanted : ℕ) (es : List MarketEvent) → count_from wanted es ≤ length es
count_from_le wanted [] = omega arith
count_from_le wanted (e ∷ es) = ground (arith, count_from_le wanted es)

replay_count_le :
    (from : Assoc ℕ) (p : Publisher)
    → IsBounded p
    → replay_count from p ≤ length from * p.options.replay_window
replay_count_le [] p h = omega arith
replay_count_le ((symbol, wanted) ∷ from) p h =
    omega (arith, count_from_le wanted (history_of symbol p), h symbol, replay_count_le from p h)

act_opens :
    (o : PublisherOptions) (n : ℕ) (x : Request) (kind : SubscriberKind) (p : Publisher)
    → Able o (1 + n) p
    → o.queue_capacity + length x.from_seq * o.replay_window < word
    → (r : Subscribed) × open_kind kind x p ≡ some r
unfolding open_kind
act_opens o n x SubscriberKind.replies p h room = (_, refl)
act_opens o n x SubscriberKind.market p h room =
    let few = replay_count_le x.from_seq p h.bounded in
    let fits : p.options.queue_capacity + length x.from_seq * p.options.replay_window < word =
      subst
        (λ (y : PublisherOptions). y.queue_capacity + length x.from_seq * y.replay_window < word)
        (sym h.options) room in
    let enough : p.options.queue_capacity + replay_count x.from_seq p < word =
      omega (arith, few, fits) in
    let (r, done, kept, rest) =
      subscribe-Answers x.gateway_id x.symbols x.from_seq p h.consistent (omega (arith, h.ids_left))
        enough in
    (r, done)

pub less-Able : (o : PublisherOptions) (m n : ℕ) (p : Publisher) → n ≤ m → Able o m p → Able o n p
less-Able o m n p le h = record {
  consistent = h.consistent;
  bounded = h.bounded;
  options = h.options;
  ids_left = omega (arith, le, h.ids_left);
}

-- Every action is possible, and leaves the others possible.
abbrev pub Acts : PublisherOptions → ℕ → Option (Publisher × List FeedItem) → Type 0
Acts o n result =
    (q : Publisher) × (taken : List FeedItem) × (result ≡ some (q, taken)) × Able o n q

same-Able :
    (o : PublisherOptions) (n : ℕ) (p q : Publisher)
    → Able o n p
    → IsConsistent q
    → SameHistory p q
    → q.next_id ≡ p.next_id
    → Able o n q
same-Able o n p q h c same ids = record {
  consistent = c;
  bounded = SameHistory-IsBounded p q same h.bounded;
  options = same.2 ∙ h.options;
  ids_left = omega (arith, ids, h.ids_left);
}

noted-Able :
    (o : PublisherOptions) (n : ℕ) (out : Output) (p : Publisher)
    → Able o n p
    → Able o n (noted out p)
unfolding remember
noted-Able o n (Output.market_event e) p h = record {
  consistent = h.consistent;
  bounded = remember-IsBounded e p h.bounded;
  options = h.options;
  ids_left = h.ids_left;
}
noted-Able o n (Output.reply r) p h = h
noted-Able o n (Output.snapshot_ready r) p h = h
noted-Able o n Output.outbox_closed p h = h

act-Acts :
    (o : PublisherOptions) (n id : ℕ) (a : Action) (p : Publisher)
    → Able o (grows a + n) p
    → RoomFor o a
    → Acts o n (act id a p)
unfolding act open_kind
act-Acts o n id (Action.handles out) p able room =
    let h = less-Able o (0 + n) n p (omega arith) able in
    let (q, done, c) = handle-IsConsistent out p h.consistent in
    let (same, ids) = handle-SameRecords out p q done in
    rw done (q, [], refl, same-Able o n (noted out p) q (noted-Able o n out p h) c same ids)
act-Acts o n id (Action.reads j) p able room =
    let h = less-Able o (0 + n) n p (omega arith) able in
    let (same, ids) = read-SameRecords j p in
    (_, _, refl, same-Able o n p (read j p).1 h (read-IsConsistent j p h.consistent) same ids)
act-Acts o n id (Action.leaves j) p able room =
    let h = less-Able o (0 + n) n p (omega arith) able in
    let (same, ids) = drop-SameRecords j EndReason.unsubscribed p in
    (
      _,
      _,
      refl,
      same-Able o n p (unsubscribe j p) h
          (drop-IsConsistent j EndReason.unsubscribed p h.consistent) same ids,
    )
act-Acts o n id (Action.opens x) p h room =
    let (r, done) = act_opens o n x x.kind p h room in
    let same : SameHistory p r.publisher =
      subst (λ y. Notes p (joined y)) done (open_stream-Notes x p) in
    let joins : Joins p r.publisher =
      subst (λ y. JoinsIn p (joined y)) done
        (open_stream-JoinsIn x p h.consistent (omega (arith, h.ids_left))) in
    (
      r.publisher,
      [],
      ap (λ y. without_items (joined y)) done,
      record {
        consistent = joins.consistent;
        bounded = SameHistory-IsBounded p r.publisher same h.bounded;
        options = same.2 ∙ h.options;
        ids_left = elim joins.number [
          | inl kept ↦ omega (arith, kept, h.ids_left)
          | inr next ↦ omega (arith, next, h.ids_left)
        ];
      },
    )

pub act_all-Acts :
    (o : PublisherOptions) (n id : ℕ) (acts : List Action) (p : Publisher)
    → Able o (opens_in acts + n) p
    → All (RoomFor o) acts
    → Acts o n (act_all id acts p)
unfolding act_all
act_all-Acts o n id [] p h room = (p, [], refl, less-Able o (0 + n) n p (omega arith) h)
act_all-Acts o n id (a ∷ acts) p h room =
    let able =
      less-Able o (grows a + opens_in acts + n) (grows a + (opens_in acts + n)) p (omega arith) h in
    let (q, taken, done, k) = act-Acts o (opens_in acts + n) id a p able room.0 in
    let (v, more, all, e) = act_all-Acts o n id acts q k room.1 in
    rw (done, all) (v, taken ++ more, refl, e)

pub read-Able :
    (o : PublisherOptions) (n j : ℕ) (p : Publisher) → Able o n p → Able o n (read j p).1
read-Able o n j p h =
    let (same, ids) = read-SameRecords j p in
    same-Able o n p (read j p).1 h (read-IsConsistent j p h.consistent) same ids
