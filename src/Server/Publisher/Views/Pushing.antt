-- ===== src/Server/Publisher/Views/Pushing.antt =====
-- What the pushes add to one subscription (server/src/publisher.cpp, `route`).
use order_book_engine.Prelude.{
  ℕ, Bool, true, false, some, List, [], ◌∷◌, ◌≡◌, refl, sym, ap, ◌∙◌, arith, if◌then◌else◌, inl,
  inr, ◌⊎◌, Bool-cases, Option-cases, ◌==◌, ==_iff, ==_refl, leb, length, Assoc, lookup,
  lookup-insert, keys, NotIn, Distinct, append-nil,
}
use order_book_engine.Server.Commands.{MarketEvent}
use order_book_engine.Server.Subscription.{FeedItem, EndReason, Subscription, is_ended, try_push}
use order_book_engine.Server.Publisher.{
  Subscriber, Publisher, is_member, shows, offer, note_slow, show_event, push_one, drop_slow,
  count_slow,
}
use order_book_engine.Server.Publisher.Replaying.{add_items}
use order_book_engine.Server.Publisher.Views.Keeping.{Stays, drop-Stays}

offer_other :
    (id j : ℕ) (item : FeedItem) (store : Assoc Subscription)
    → (j == id) ≡ false
    → lookup j (offer id item store).1 ≡ lookup j store
unfolding offer
offer_other id j item store away = elim (Option-cases (lookup id store)) [
  | inl e ↦ rw e refl
  | inr (s, e) ↦ rw e (lookup-insert id j (try_push item s).1 store ∙ rw away refl)
]

-- A push to a subscription that has not ended: it is full, or it has the item.
offer_self :
    (id : ℕ) (item : FeedItem) (store : Assoc Subscription) (s : Subscription)
    → lookup id store ≡ some s
    → is_ended s.end_reason ≡ false
    → (((offer id item store).0 ≡ false) × (lookup id (offer id item store).1 ≡ some s))
      ⊎ (lookup id (offer id item store).1 ≡ some (add_items (item ∷ []) s))
unfolding offer try_push
offer_self id item store s found running = elim (Bool-cases (leb s.capacity (length s.items))) [
  | inl full ↦
      rw (found, running, full) (inl (refl, lookup-insert id id s store ∙ rw (==_refl id) refl))
  | inr room ↦
      let t = add_items (item ∷ []) s in
      rw (found, running, room) (inr (lookup-insert id id t store ∙ rw (==_refl id) refl))
]

show_event_other :
    (e : MarketEvent) (subs : Assoc Subscriber) (store : Assoc Subscription) (j : ℕ)
    → NotIn j (keys subs)
    → lookup j (show_event e subs store).0 ≡ lookup j store
unfolding show_event
show_event_other e [] store j h = refl
show_event_other e ((id, entry) ∷ rest) store j h =
    let away : (j == id) ≡ false = ground (arith, h.0) in
    elim (Bool-cases (shows e.event.sequence_number (lookup e.symbol entry.live))) [
      | inr hidden ↦ rw hidden (show_event_other e rest store j h.1)
      | inl seen ↦
          let next = (offer id (FeedItem.market_event e) store).1 in
          rw seen (
            show_event_other e rest next j h.1
            ∙ offer_other id j (FeedItem.market_event e) store away)
    ]

abbrev pub event_items : MarketEvent → Subscriber → List FeedItem
event_items e entry =
    if shows e.event.sequence_number (lookup e.symbol entry.live)
    then FeedItem.market_event e ∷ []
    else []

-- After the loop a subscriber is too slow, or its subscription has the event, if it is shown to it.
abbrev pub Shows : ℕ → List FeedItem → Subscription → Assoc Subscription × List ℕ → Type 0
Shows j items s (store, slow) =
    (is_member j slow ≡ true) ⊎ (lookup j store ≡ some (add_items items s))

note_slow_member :
    (id j : ℕ) (ok : Bool) (slow : List ℕ)
    → is_member j slow ≡ true
    → is_member j (note_slow id ok slow) ≡ true
note_slow_member id j true slow h = h
note_slow_member id j false slow h = ground (arith, h)

pub add_nothing : (s : Subscription) → add_items [] s ≡ s
add_nothing s = rw (append-nil s.items) refl

show_here :
    (e : MarketEvent) (rest : Assoc Subscriber) (store : Assoc Subscription) (id : ℕ)
    (entry : Subscriber) (s : Subscription)
    → NotIn id (keys rest)
    → lookup id store ≡ some s
    → is_ended s.end_reason ≡ false
    → Shows id (event_items e entry) s (show_event e ((id, entry) ∷ rest) store)
unfolding show_event
show_here e rest store id entry s h found running =
    let item = FeedItem.market_event e in
    let next = (offer id item store).1 in
    elim (Bool-cases (shows e.event.sequence_number (lookup e.symbol entry.live))) [
      | inr hidden ↦ rw hidden (
          inr (show_event_other e rest store id h ∙ found ∙ ap (λ x. some x) (sym (add_nothing s))))
      | inl seen ↦ elim (offer_self id item store s found running) [
        | inl (full, kept) ↦ rw (seen, full) (inl (rw (==_refl id) refl))
        | inr has ↦ rw seen (inr (show_event_other e rest next id h ∙ has))
      ]
    ]

Shows-later :
    (id j : ℕ) (ok : Bool) (items : List FeedItem) (s : Subscription) (store : Assoc Subscription)
    (slow : List ℕ)
    → Shows j items s (store, slow)
    → Shows j items s (store, note_slow id ok slow)
Shows-later id j ok items s store slow (inl h) = inl (note_slow_member id j ok slow h)
Shows-later id j ok items s store slow (inr h) = inr h

pub show_event-Shows :
    (e : MarketEvent) (subs : Assoc Subscriber) (store : Assoc Subscription) (j : ℕ)
    (entry : Subscriber) (s : Subscription)
    → Distinct (keys subs)
    → lookup j subs ≡ some entry
    → lookup j store ≡ some s
    → is_ended s.end_reason ≡ false
    → Shows j (event_items e entry) s (show_event e subs store)
unfolding show_event lookup
show_event-Shows e [] store j entry s h known found running = absurd (ground (arith, known))
show_event-Shows e ((id, other) ∷ rest) store j entry s h known found running =
    elim (Bool-cases (j == id)) [
      | inl same ↦
          let ids : j ≡ id = (==_iff j id).0 same in
          let entries : other ≡ entry = ground (arith, known, same) in
          rw (entries, ids) (show_here e rest store id entry s h.0 (rw (← ids) found) running)
      | inr away ↦
          let still : lookup j rest ≡ some entry = ground (arith, known, away) in
          elim (Bool-cases (shows e.event.sequence_number (lookup e.symbol other.live))) [
            | inr hidden ↦
                rw hidden (show_event-Shows e rest store j entry s h.1 still found running)
            | inl seen ↦
                let item = FeedItem.market_event e in
                let next = (offer id item store).1 in
                rw seen (
                  Shows-later id j _ _ s _ _ (
                    show_event-Shows e rest next j entry s h.1 still
                      (offer_other id j item store away ∙ found) running))
          ]
    ]

if_kept :
    (ok : Bool) (id j : ℕ) (q : Publisher) (u : Subscription) (entry : Subscriber)
    → lookup j q.subscriptions ≡ some u
    → lookup j (if ok then q else drop_slow id q).subscribers ≡ some entry
    → ((ok ≡ true) ⊎ ((j == id) ≡ false)) × Stays j u entry q (if ok then q else drop_slow id q)
if_kept true id j q u entry found there = (inl refl, (there, found))
if_kept false id j q u entry found there =
    let (away, stays) =
      drop-Stays id j EndReason.slow_consumer (count_slow q) u entry found there in
    (inr away, stays)

-- A push to one subscriber, for the one it is for and for another.
pub push_one-Stays :
    (id j : ℕ) (item : FeedItem) (p : Publisher) (s : Subscription) (entry : Subscriber)
    → lookup j p.subscriptions ≡ some s
    → is_ended s.end_reason ≡ false
    → lookup j (push_one id item p).subscribers ≡ some entry
    → Stays j (add_items (if j == id then item ∷ [] else []) s) entry p (push_one id item p)
unfolding push_one
push_one-Stays id j item p s entry found running there =
    let r = offer id item p.subscriptions in
    let q = record p { subscriptions = r.1 } in
    elim (Bool-cases (j == id)) [
      | inr away ↦
          let kept = offer_other id j item p.subscriptions away ∙ found in
          let (how, stays) = if_kept r.0 id j q s entry kept there in rw (away, add_nothing s) stays
      | inl same ↦
          let ids : id ≡ j = sym ((==_iff j id).0 same) in
          elim (offer_self id item p.subscriptions s (rw ids found) running) [
            | inl (full, kept) ↦
                let (how, stays) = if_kept r.0 id j q s entry (rw (← ids) kept) there in
                absurd (ground (arith, how, full, same))
            | inr has ↦
                let (how, stays) =
                  if_kept r.0 id j q (add_items (item ∷ []) s) entry (rw (← ids) has) there in
                rw same stays
          ]
    ]
