-- ===== src/Server/Publisher/Replaying.antt =====
-- What a new subscriber is given (server/src/publisher.cpp, `subscribe`).
use order_book_engine.Prelude.{
  ℕ, ◌+◌, ◌≤◌, leb, false, Option, none, some, List, [], ◌∷◌, ◌++◌, ◌≡◌, refl, sym, ap, ◌∙◌, arith,
  if◌then◌else◌, ◌==◌, ==_iff, Bool-cases, Assoc, lookup, length, length-append, append-nil,
  append_assoc, NotIn, Distinct, inl, inr,
}
use order_book_engine.Server.Commands.{MarketEvent}
use order_book_engine.Server.Subscription.{FeedItem, Subscription, is_ended, try_push}
use order_book_engine.Server.Publisher.{Publisher, kept_events}
use order_book_engine.Server.Publisher.Subscribing.{
  count_from, replay_count, replay, replay_symbol, replay_all,
}

-- The events from a number on, in order.
abbrev pub events_from : ℕ → List MarketEvent → List FeedItem
events_from wanted [] = []
events_from wanted (e ∷ es) =
    let rest = events_from wanted es in
    if leb wanted e.event.sequence_number then FeedItem.market_event e ∷ rest else rest

abbrev pub wanted_events : Option ℕ → List MarketEvent → List FeedItem
wanted_events none es = []
wanted_events (some wanted) es = events_from wanted es

-- What is replayed: symbol by symbol, the events that the history holds from the number asked for on.
abbrev pub replayed : List ℕ → Assoc ℕ → Publisher → List FeedItem
replayed [] from p = []
replayed (symbol ∷ symbols) from p =
    wanted_events (lookup symbol from) (kept_events (lookup symbol p.history))
    ++ replayed symbols from p

abbrev pub add_items : List FeedItem → Subscription → Subscription
add_items items s = record s { items = s.items ++ items }

add_items-add_items :
    (a b : List FeedItem) (s : Subscription) → add_items b (add_items a s) ≡ add_items (a ++ b) s
add_items-add_items a b s = rw (append_assoc s.items a b) refl

length-events_from :
    (wanted : ℕ) (es : List MarketEvent) → length (events_from wanted es) ≡ count_from wanted es
length-events_from wanted [] = refl
length-events_from wanted (e ∷ es) = ground (arith, length-events_from wanted es)

replay_fits :
    (wanted : ℕ) (es : List MarketEvent) (s : Subscription)
    → is_ended s.end_reason ≡ false
    → length s.items + length (events_from wanted es) ≤ s.capacity
    → replay wanted es s ≡ some (add_items (events_from wanted es) s)
unfolding replay try_push
replay_fits wanted [] s running small = rw (append-nil s.items) refl
replay_fits wanted (e ∷ es) s running small =
    elim (Bool-cases (leb wanted e.event.sequence_number)) [
      | inr early ↦ rw early (replay_fits wanted es s running (ground (arith, early, small)))
      | inl asked ↦
          let item = FeedItem.market_event e in
          let room : leb s.capacity (length s.items) ≡ false = ground (arith, asked, small) in
          let l = length-append s.items (item ∷ []) in
          rw (asked, running, room)
            (replay_fits wanted es (add_items (item ∷ []) s) running
                (ground (arith, asked, small, l))
              ∙ ap (λ x. some x) (add_items-add_items (item ∷ []) (events_from wanted es) s))
    ]

replay_symbol_fits :
    (symbol : ℕ) (wanted : Option ℕ) (p : Publisher) (s : Subscription)
    → is_ended s.end_reason ≡ false
    → length s.items + length (wanted_events wanted (kept_events (lookup symbol p.history)))
      ≤ s.capacity
    → replay_symbol symbol wanted p s
      ≡ some (add_items (wanted_events wanted (kept_events (lookup symbol p.history))) s)
replay_symbol_fits symbol none p s running small = rw (append-nil s.items) refl
replay_symbol_fits symbol (some wanted) p s running small = replay_fits wanted _ s running small

pub replay_all_fits :
    (symbols : List ℕ) (from : Assoc ℕ) (p : Publisher) (s : Subscription)
    → is_ended s.end_reason ≡ false
    → length s.items + length (replayed symbols from p) ≤ s.capacity
    → replay_all symbols from p s ≡ some (add_items (replayed symbols from p) s)
unfolding replay_all
replay_all_fits [] from p s running small = rw (append-nil s.items) refl
replay_all_fits (symbol ∷ symbols) from p s running small =
    let items = wanted_events (lookup symbol from) (kept_events (lookup symbol p.history)) in
    let l = length-append items (replayed symbols from p) in
    let k = length-append s.items items in
    let first =
      replay_symbol_fits symbol (lookup symbol from) p s running (omega (arith, l, small)) in
    rw first (
      replay_all_fits symbols from p (add_items items s) running (omega (arith, l, k, small))
      ∙ ap (λ x. some x) (add_items-add_items items (replayed symbols from p) s))

replayed_without :
    (k wanted : ℕ) (symbols : List ℕ) (from : Assoc ℕ) (p : Publisher)
    → NotIn k symbols
    → replayed symbols ((k, wanted) ∷ from) p ≡ replayed symbols from p
unfolding lookup
replayed_without k wanted [] from p h = refl
replayed_without k wanted (s ∷ symbols) from p h =
    let other : (s == k) ≡ false = ground (arith, h.0) in
    rw (other, replayed_without k wanted symbols from p h.1) refl

length-replayed_cons :
    (k wanted : ℕ) (symbols : List ℕ) (from : Assoc ℕ) (p : Publisher)
    → Distinct symbols
    → length (replayed symbols ((k, wanted) ∷ from) p)
      ≤ count_from wanted (kept_events (lookup k p.history)) + length (replayed symbols from p)
unfolding lookup
length-replayed_cons k wanted [] from p h = omega arith
length-replayed_cons k wanted (s ∷ symbols) from p h = elim (Bool-cases (s == k)) [
  | inl same ↦
      let ids : k ≡ s = sym ((==_iff s k).0 same) in
      let events = kept_events (lookup s p.history) in
      let others = wanted_events (lookup s from) events in
      let here : count_from wanted (kept_events (lookup k p.history)) ≡ count_from wanted events =
        ap (λ i. count_from wanted (kept_events (lookup i p.history))) ids in
      rw (same, replayed_without k wanted symbols from p (rw ids h.0))
        (omega (
          arith,
          length-append (events_from wanted events) (replayed symbols from p),
          length-append others (replayed symbols from p),
          length-events_from wanted events,
          here,
        ))
  | inr other ↦
      let items = wanted_events (lookup s from) (kept_events (lookup s p.history)) in
      rw other (
        omega (
          arith,
          length-append items (replayed symbols from p),
          length-append items (replayed symbols ((k, wanted) ∷ from) p),
          length-replayed_cons k wanted symbols from p h.1,
        ))
]

replayed-nil : (symbols : List ℕ) (p : Publisher) → replayed symbols [] p ≡ []
unfolding lookup
replayed-nil [] p = refl
replayed-nil (s ∷ symbols) p = replayed-nil symbols p

pub length-replayed :
    (symbols : List ℕ) (from : Assoc ℕ) (p : Publisher)
    → Distinct symbols
    → length (replayed symbols from p) ≤ replay_count from p
length-replayed symbols [] p h = rw (replayed-nil symbols p) (omega arith)
length-replayed symbols ((k, wanted) ∷ from) p h =
    omega (arith, length-replayed_cons k wanted symbols from p h, length-replayed symbols from p h)
