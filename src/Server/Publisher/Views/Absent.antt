-- ===== src/Server/Publisher/Views/Absent.antt =====
-- Who has left does not come back: a new subscriber gets a new id (server/src/publisher.cpp).
use Prim.Native.String.{String}
use order_book_engine.Prelude.{
  ℕ, ◌+◌, ◌<◌, ◌≤◌, lookup-emplace, subst, false, Assoc, Option, none, some, List, [], ◌∷◌, ◌≡◌,
  refl, ◌∙◌, arith, if_both, inl, inr, Bool-cases, Option-cases, ◌==◌, ==_iff, lookup, insert,
  lookup-insert, find_name, is_some,
}
use order_book_engine.Server.Commands.{Reply, SnapshotReady, Output}
use order_book_engine.Server.Subscription.{FeedItem, EndReason, Subscription}
use order_book_engine.Server.Publisher.{
  Subscriber, Publisher, handle, read, unsubscribe, count_slow, push_one, offer, route_event,
  show_event, remember, count_event, route_reply, route_snapshot, make_live, close,
}
use order_book_engine.Server.Publisher.Views.Keeping.{drop_none, drop_all_none}
use order_book_engine.Server.Publisher.Joining.{Request, joined, open_stream, open_kind-Of}
use order_book_engine.Server.Publisher.Recording.Handling.{
  handle-SameRecords, noted-next_id, drop-SameRecords, read-SameRecords,
}
use order_book_engine.Book.State.{word}
use order_book_engine.Server.Publisher.{SubscriberKind, SymbolState}
use order_book_engine.Server.Publisher.Subscribing.{enter}
use order_book_engine.Server.Publisher.Views.Sessions.{
  Action, grows, opens_in, without_items, with_items, and_go_on, act, act_all,
}

-- Nobody is registered under the id.
abbrev pub IsAbsent : ℕ → Publisher → Type 0
IsAbsent id p = lookup id p.subscribers ≡ none

abbrev pub IsAbsentIn : ℕ → Option Publisher → Type 0
IsAbsentIn id none = Unit
IsAbsentIn id (some p) = IsAbsent id p

push_one-IsAbsent :
    (j id : ℕ) (item : FeedItem) (p : Publisher) → IsAbsent id p → IsAbsent id (push_one j item p)
unfolding push_one
push_one-IsAbsent j id item p h =
    let q = record p { subscriptions = (offer j item p.subscriptions).1 } in
    if_both (IsAbsent id) (offer j item p.subscriptions).0 _ _ (λ ok. h)
      (λ full. drop_none j id EndReason.slow_consumer (count_slow q) h)

route_reply-IsAbsent :
    (id : ℕ) (r : Reply) (p : Publisher) → IsAbsent id p → IsAbsentIn id (route_reply r p)
unfolding route_reply
route_reply-IsAbsent id r p h = elim (Option-cases (find_name r.gateway_id p.replies_by_gateway)) [
  | inl lost ↦ rw lost h
  | inr (j, to) ↦ rw to (
      if_both (IsAbsentIn id) (is_some (lookup j p.subscribers)) _ _
        (λ there. push_one-IsAbsent j id (FeedItem.reply r) p h) (λ gone. tt))
]

route_snapshot-IsAbsent :
    (id : ℕ) (r : SnapshotReady) (p : Publisher) → IsAbsent id p → IsAbsent id (route_snapshot r p)
unfolding route_snapshot
route_snapshot-IsAbsent id r p h = elim (Option-cases (lookup r.subscriber p.subscribers)) [
  | inl left ↦ rw left h
  | inr (x, has) ↦ elim (Option-cases (lookup r.symbol x.live)) [
    | inl unasked ↦ rw (has, unasked) h
    | inr (st, asked) ↦
        let other : (id == r.subscriber) ≡ false = elim (Bool-cases (id == r.subscriber)) [
          | inr away ↦ away
          | inl same ↦
              let gone : lookup r.subscriber p.subscribers ≡ none =
                rw (← (==_iff id r.subscriber).0 same) h in
              absurd (ground (arith, gone, has))
        ] in
        let next = make_live r.symbol st x in
        let stored = lookup-insert r.subscriber id next p.subscribers ∙ rw other h in
        rw (has, asked)
          (if_both (IsAbsent id) st.live _ _ (λ already. h)
            (λ waiting.
              push_one-IsAbsent r.subscriber id (FeedItem.snapshot_ready r)
                (record p { subscribers = insert r.subscriber next p.subscribers }) stored))
  ]
]

handle-IsAbsent : (id : ℕ) (o : Output) (p : Publisher) → IsAbsent id p → IsAbsentIn id (handle o p)
unfolding handle route_event close lookup
handle-IsAbsent id (Output.market_event e) p h =
    let (store, slow) = show_event e p.subscribers p.subscriptions in
    drop_all_none slow id (record (count_event (remember e p)) { subscriptions = store }) h
handle-IsAbsent id (Output.reply x) p h = route_reply-IsAbsent id x p h
handle-IsAbsent id (Output.snapshot_ready x) p h = route_snapshot-IsAbsent id x p h
handle-IsAbsent id Output.outbox_closed p h = refl

-- Nobody is registered under the id, and nobody will be: ids are given in ascending order.
abbrev pub HasLeft : ℕ → Publisher → Type 0
HasLeft id p = IsAbsent id p × (id < p.next_id)

-- The same after steps that take at most the ids below `bound`.
abbrev pub HasLeftAfter : ℕ → ℕ → Option (Publisher × List FeedItem) → Type 0
HasLeftAfter id bound none = Unit
HasLeftAfter id bound (some (q, items)) = HasLeft id q × (q.next_id ≤ bound)

abbrev HasLeftIn : ℕ → ℕ → Option Publisher → Type 0
HasLeftIn id bound none = Unit
HasLeftIn id bound (some q) = HasLeft id q × (q.next_id ≤ bound)

without_items-HasLeftAfter :
    (id bound : ℕ) (o : Option Publisher)
    → HasLeftIn id bound o
    → HasLeftAfter id bound (without_items o)
without_items-HasLeftAfter id bound none h = tt
without_items-HasLeftAfter id bound (some p) h = h

read-subscribers : (j : ℕ) (p : Publisher) → (read j p).1.subscribers ≡ p.subscribers
unfolding read
read-subscribers j p = elim (Option-cases (lookup j p.subscriptions)) [
  | inl e ↦ rw e refl
  | inr (u, e) ↦ rw e refl
]

-- The id of a step that keeps the next id.
kept_id :
    (id : ℕ) (p q : Publisher)
    → q.next_id ≡ p.next_id
    → id < p.next_id
    → IsAbsent id q
    → HasLeft id q × (q.next_id ≤ p.next_id + 0)
kept_id id p q same low gone = ((gone, omega (arith, same, low)), omega (arith, same))

handles-HasLeftIn :
    (id : ℕ) (o : Output) (p : Publisher) → HasLeft id p → HasLeftIn id (p.next_id + 0) (handle o p)
handles-HasLeftIn id o p (gone, low) = elim (Option-cases (handle o p)) [
  | inl thrown ↦ rw thrown tt
  | inr (q, done) ↦ rw done (
      kept_id id p q ((handle-SameRecords o p q done).1 ∙ noted-next_id o p) low
        (subst (IsAbsentIn id) done (handle-IsAbsent id o p gone)))
]

entered-IsAbsent :
    (id : ℕ) (kind : SubscriberKind) (g : String) (live : Assoc SymbolState) (s : Subscription)
    (p : Publisher)
    → HasLeft id p
    → IsAbsent id (enter kind g live s p)
entered-IsAbsent id kind g live s p (gone, low) =
    let entry : Subscriber = record { kind = kind; live = live } in
    let other : (id == p.next_id) ≡ false = ground (arith, low) in
    ground (arith, lookup-emplace p.next_id id entry p.subscribers, other, gone)

opens-HasLeftIn :
    (id : ℕ) (x : Request) (p : Publisher)
    → HasLeft id p
    → p.next_id + 1 < word
    → HasLeftIn id (p.next_id + 1) (joined (open_stream x p))
opens-HasLeftIn id x p (gone, low) ids_left =
    open_kind-Of (HasLeftIn id (p.next_id + 1)) p tt ((gone, low), omega arith)
      ((gone, low), omega arith)
      (λ kind g live capacity s stats free h. (
        (
          entered-IsAbsent id kind g live s (record p { stats = stats }) (gone, low),
          omega (arith, low, ids_left),
        ),
        omega (arith, ids_left),
      ))
      x.kind x

act-HasLeftAfter :
    (id : ℕ) (a : Action) (p : Publisher)
    → HasLeft id p
    → p.next_id + grows a < word
    → HasLeftAfter id (p.next_id + grows a) (act id a p)
unfolding act
act-HasLeftAfter id (Action.handles o) p h left =
    without_items-HasLeftAfter id (p.next_id + 0) (handle o p) (handles-HasLeftIn id o p h)
act-HasLeftAfter id (Action.reads j) p (gone, low) left =
    kept_id id p (read j p).1 (read-SameRecords j p).1 low (rw (read-subscribers j p) gone)
act-HasLeftAfter id (Action.leaves j) p (gone, low) left =
    kept_id id p (unsubscribe j p) (drop-SameRecords j EndReason.unsubscribed p).1 low
      (drop_none j id EndReason.unsubscribed p gone)
act-HasLeftAfter id (Action.opens x) p h left =
    without_items-HasLeftAfter id (p.next_id + 1) (joined (open_stream x p))
      (opens-HasLeftIn id x p h left)

-- Over a whole run.
abbrev pub IsAbsentAfter : ℕ → Option (Publisher × List FeedItem) → Type 0
IsAbsentAfter id none = Unit
IsAbsentAfter id (some (q, items)) = IsAbsent id q

with_items-IsAbsentAfter :
    (id : ℕ) (items : List FeedItem) (o : Option (Publisher × List FeedItem))
    → IsAbsentAfter id o
    → IsAbsentAfter id (with_items items o)
with_items-IsAbsentAfter id items none h = tt
with_items-IsAbsentAfter id items (some (q, more)) h = h

and_go_on-IsAbsentAfter :
    (id bound : ℕ) (o : Option (Publisher × List FeedItem))
    (f : Publisher → Option (Publisher × List FeedItem))
    → HasLeftAfter id bound o
    → ((q : Publisher) → HasLeft id q → q.next_id ≤ bound → IsAbsentAfter id (f q))
    → IsAbsentAfter id (and_go_on o f)
and_go_on-IsAbsentAfter id bound none f h next = tt
and_go_on-IsAbsentAfter id bound (some (q, items)) f h next =
    with_items-IsAbsentAfter id items (f q) (next q h.0 h.1)

pub act_all-IsAbsentAfter :
    (id : ℕ) (acts : List Action) (p : Publisher)
    → HasLeft id p
    → p.next_id + opens_in acts < word
    → IsAbsentAfter id (act_all id acts p)
unfolding act_all
act_all-IsAbsentAfter id [] p h left = h.0
act_all-IsAbsentAfter id (a ∷ acts) p h left =
    and_go_on-IsAbsentAfter id (p.next_id + grows a) (act id a p) (act_all id acts)
      (act-HasLeftAfter id a p h (omega (arith, left)))
      (λ q k few. act_all-IsAbsentAfter id acts q k (omega (arith, left, few)))
