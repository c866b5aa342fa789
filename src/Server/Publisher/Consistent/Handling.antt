-- ===== src/Server/Publisher/Consistent/Handling.antt =====
-- Every output that the publisher handles, and every read of a stream, keeps its maps in agreement
-- (server/src/publisher.cpp, `run` and `route`).
use Prim.Native.String.{String}
use order_book_engine.Prelude.{
  ℕ, suc, length, Bool, true, none, some, List, [], ◌∷◌, ◌≡◌, ◌≢◌, refl, sym, ap, subst, ◌∙◌, arith,
  ◌==◌, ==_iff, Bool-cases, Option-cases, Assoc, lookup, insert, lookup-insert, Distinct-insert,
  NameMap, find_name, is_some, inl, inr,
}
use order_book_engine.Server.Commands.{MarketEvent, Reply, SnapshotReady, Output}
use order_book_engine.Server.Subscription.{FeedItem, EndReason, Subscription, next_for, pop_front}
use order_book_engine.Server.Publisher.{
  SubscriberKind, Subscriber, Publisher, PublisherOptions, make_publisher, pick, by_gateway, shows,
  offer, show_event, route_event, push_one, route_reply, make_live, route_snapshot, count_slow,
  count_event, remember, close, handle, read,
}
use order_book_engine.Server.Publisher.Consistent.{
  Agree, IsConsistent, Continues, AllContinue, AllContinue-refl, AllContinue-trans,
  AllContinue-insert, offer-AllContinue, Agree-store,
}
use order_book_engine.Server.Publisher.Consistent.Dropping.{
  drop-IsConsistent, drop_all-IsConsistent,
}

pub show_event-AllContinue :
    (e : MarketEvent) (subs : Assoc Subscriber) (store : Assoc Subscription)
    → AllContinue store (show_event e subs store).0
unfolding show_event
show_event-AllContinue e [] store = AllContinue-refl store
show_event-AllContinue e ((id, entry) ∷ rest) store =
    elim (Bool-cases (shows e.event.sequence_number (lookup e.symbol entry.live))) [
      | inr hidden ↦ rw hidden (show_event-AllContinue e rest store)
      | inl shown ↦ rw shown (
          AllContinue-trans store (offer id (FeedItem.market_event e) store).1 _
            (offer-AllContinue id (FeedItem.market_event e) store)
            (show_event-AllContinue e rest (offer id (FeedItem.market_event e) store).1))
    ]

pub push_one-IsConsistent :
    (id : ℕ) (item : FeedItem) (p : Publisher) → IsConsistent p → IsConsistent (push_one id item p)
unfolding push_one
push_one-IsConsistent id item p c =
    let d =
      Agree-store p.subscribers p.subscriptions (offer id item p.subscriptions).1
        (λ k. by_gateway k p) p.next_id (offer-AllContinue id item p.subscriptions) c in
    let q = record p { subscriptions = (offer id item p.subscriptions).1 } in
    elim (Bool-cases (offer id item p.subscriptions).0) [
      | inl ok ↦ rw ok d
      | inr full ↦ rw full (drop-IsConsistent id EndReason.slow_consumer (count_slow q) d)
    ]

route_event-IsConsistent :
    (e : MarketEvent) (p : Publisher) → IsConsistent p → IsConsistent (route_event e p)
unfolding route_event
route_event-IsConsistent e p c =
    let q = count_event (remember e p) in
    let (store, slow) = show_event e p.subscribers p.subscriptions in
    drop_all-IsConsistent slow (record q { subscriptions = store })
      (Agree-store p.subscribers p.subscriptions store (λ k. by_gateway k p) p.next_id
        (show_event-AllContinue e p.subscribers p.subscriptions) c)

route_reply-IsConsistent :
    (r : Reply) (p : Publisher)
    → IsConsistent p
    → (q : Publisher) × (route_reply r p ≡ some q) × IsConsistent q
unfolding route_reply
route_reply-IsConsistent r p c = elim (Option-cases (find_name r.gateway_id p.replies_by_gateway)) [
  | inl e ↦ rw e (_, refl, c)
  | inr (id, e) ↦
      let (entry, there, k, s, found, g) = c.named SubscriberKind.replies r.gateway_id id e in
      let here : is_some (lookup id p.subscribers) ≡ true = rw there refl in
      rw (e, here) (_, refl, push_one-IsConsistent id (FeedItem.reply r) p c)
]

-- A subscriber whose kind stays.
Agree-insert :
    (subs : Assoc Subscriber) (store : Assoc Subscription) (names : SubscriberKind → NameMap ℕ)
    (next id : ℕ) (entry other : Subscriber)
    → lookup id subs ≡ some entry
    → other.kind ≡ entry.kind
    → Agree subs store names next
    → Agree (insert id other subs) store names next
Agree-insert subs store names next id entry other known same a = record {
  distinct = Distinct-insert id other subs a.distinct;
  registered = λ j x e. elim (Bool-cases (j == id)) [
    | inl here ↦
        let (s, found, running, small, name) = a.registered id entry known in
        let ids : j ≡ id = (==_iff j id).0 here in
        let entries : x ≡ other = ground (arith, e, lookup-insert id j other subs) in
        let kinds : x.kind ≡ entry.kind = ap (λ y. y.kind) entries ∙ same in
        (s, rw ids found, running, small, rw (kinds, ids) name)
    | inr away ↦ a.registered j x (ground (arith, lookup-insert id j other subs))
  ];
  named = λ kind g j e.
      let (x, there, k, s, found, name) = a.named kind g j e in
      elim (Bool-cases (j == id)) [
        | inl here ↦
            let ids : j ≡ id = (==_iff j id).0 here in
            let entries : x ≡ entry = ground (arith, there, known) in
            let kinds : other.kind ≡ kind = same ∙ sym (ap (λ y. y.kind) entries) ∙ k in
            (other, lookup-insert id j other subs ∙ rw here refl, kinds, s, found, name)
        | inr away ↦ (x, ground (arith, lookup-insert id j other subs), k, s, found, name)
      ];
  fresh = λ j x e. elim (Bool-cases (j == id)) [
    | inl here ↦ rw ((==_iff j id).0 here) (a.fresh id entry known)
    | inr away ↦ a.fresh j x (ground (arith, lookup-insert id j other subs))
  ];
}

route_snapshot-IsConsistent :
    (r : SnapshotReady) (p : Publisher) → IsConsistent p → IsConsistent (route_snapshot r p)
unfolding route_snapshot
route_snapshot-IsConsistent r p c = elim (Option-cases (lookup r.subscriber p.subscribers)) [
  | inl e ↦ rw e c
  | inr (entry, e) ↦ elim (Option-cases (lookup r.symbol entry.live)) [
    | inl e2 ↦ rw (e, e2) c
    | inr (st, e2) ↦ elim (Bool-cases st.live) [
      | inl already ↦ rw (e, e2, already) c
      | inr waiting ↦
          let next = make_live r.symbol st entry in
          rw (e, e2, waiting)
            (push_one-IsConsistent r.subscriber (FeedItem.snapshot_ready r)
              (record p { subscribers = insert r.subscriber next p.subscribers })
              (Agree-insert p.subscribers p.subscriptions (λ k. by_gateway k p) p.next_id
                r.subscriber entry next e refl c))
    ]
  ]
]

no_names : (kind : SubscriberKind) (g : String) → find_name {V = ℕ} g (pick kind [] []) ≡ none
unfolding find_name
no_names SubscriberKind.market g = refl
no_names SubscriberKind.replies g = refl

close-IsConsistent : (p : Publisher) → IsConsistent (close p)
unfolding close lookup
close-IsConsistent p = record {
  distinct = tt;
  registered = λ id entry e. absurd (ground arith);
  named = λ kind g id e. absurd (ground (arith, no_names kind g, e));
  fresh = λ id entry e. absurd (ground arith);
}

-- A publisher whose maps agree handles every output, without an exception, and its maps agree after it:
-- each registered subscriber has a subscription that has not ended, holds no more than its capacity,
-- and is the one that the map of its kind names for its gateway; and each gateway in a map names such
-- a subscriber.
pub handle-IsConsistent :
    (o : Output) (p : Publisher)
    → IsConsistent p
    → (q : Publisher) × (handle o p ≡ some q) × IsConsistent q
unfolding handle
handle-IsConsistent (Output.market_event e) p c = (_, refl, route_event-IsConsistent e p c)
handle-IsConsistent (Output.reply r) p c = route_reply-IsConsistent r p c
handle-IsConsistent (Output.snapshot_ready r) p c = (_, refl, route_snapshot-IsConsistent r p c)
handle-IsConsistent Output.outbox_closed p c = (_, refl, close-IsConsistent p)

pop_front-Continues :
    (items : List FeedItem) (s : Subscription) → s.items ≡ items → Continues s (pop_front items s).1
pop_front-Continues [] s e = record {
  gateway = refl;
  capacity = refl;
  reason = refl;
  small = λ h. h;
}
pop_front-Continues (x ∷ xs) s e = record {
  gateway = refl;
  capacity = refl;
  reason = refl;
  small = λ h. let l : length s.items ≡ suc (length xs) = rw e refl in omega (arith, h, l);
}

pub read-IsConsistent : (id : ℕ) (p : Publisher) → IsConsistent p → IsConsistent (read id p).1
unfolding read
read-IsConsistent id p c = elim (Option-cases (lookup id p.subscriptions)) [
  | inl e ↦ rw e c
  | inr (s, e) ↦ rw e (
      Agree-store p.subscribers p.subscriptions (insert id (next_for s).1 p.subscriptions)
        (λ k. by_gateway k p) p.next_id
        (AllContinue-insert p.subscriptions id s _ e (pop_front-Continues s.items s refl)) c)
]

nobody : (id : ℕ) (entry : Subscriber) → lookup {V = Subscriber} id [] ≢ some entry
unfolding lookup
nobody id entry e = absurd (ground arith)

-- A publisher that was just made.
pub make_publisher-IsConsistent :
    (symbols : List ℕ) (has_requester : Bool) (options : PublisherOptions) (p : Publisher)
    → make_publisher symbols has_requester options ≡ some p
    → IsConsistent p
unfolding make_publisher
make_publisher-IsConsistent symbols has_requester options p e =
    let empty : p.subscribers ≡ [] = ground (arith, e) in
    let m : p.market_by_gateway ≡ [] = ground (arith, e) in
    let r : p.replies_by_gateway ≡ [] = ground (arith, e) in
    subst (λ subs. Agree subs p.subscriptions (λ k. by_gateway k p) p.next_id) (sym empty)
      (record {
        distinct = tt;
        registered = λ id entry h. absurd (nobody id entry h);
        named = λ kind g id h. absurd (
            ground (
              arith,
              no_names kind g,
              subst (λ y. find_name g (pick kind [] y) ≡ some id) r
                  (subst (λ x. find_name g (pick kind x p.replies_by_gateway) ≡ some id) m h),
            ));
        fresh = λ id entry h. absurd (nobody id entry h);
      })
