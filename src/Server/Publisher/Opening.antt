-- ===== src/Server/Publisher/Opening.antt =====
-- Every outcome of subscribe (server/src/publisher.cpp).
use Prim.Native.String.{String}
use order_book_engine.Prelude.{
  ℕ, ◌+◌, ◌<◌, ◌≤◌, Option, none, some, List, [], ◌≡◌, ◌≢◌, refl, ◌∙◌, arith, if_both, Assoc,
  lookup, lookup-insert, ==_refl, lookup-emplace, Option-cases, false, emplace, is_some, length,
  inl, inr, ◌⊎◌, subst, ap, find_name,
}
use order_book_engine.Book.State.{word}
use order_book_engine.Server.Subscription.{Subscription}
use order_book_engine.Server.Publisher.{SubscriberKind, Subscriber, Publisher}
use order_book_engine.Server.Publisher.Subscribing.{
  SubscribeError, Subscribed, wanted_symbols, replay_count, replay_all, snapshots, requests_for,
  first_subscription, open_with, open_market, if_good, subscribe, check_request, is_too_old,
  count_replayed, refused, live_states,
}
use order_book_engine.Server.Publisher.Consistent.{IsConsistent}
use order_book_engine.Server.Publisher.Consistent.Entering.{enter-IsConsistent}
use order_book_engine.Server.Publisher.Replaying.{
  replayed, add_items, replay_all_fits, length-replayed,
}
use order_book_engine.Server.Publisher.Symbols.{wanted_symbols-Distinct}

-- An error, no subscription, and the subscribers that were there.
abbrev pub IsRefused : Publisher → Subscribed → Type 0
IsRefused p r =
    (r.result.error ≢ SubscribeError.none)
    × (r.result.subscription ≡ none)
    × (r.requests ≡ [])
    × (r.publisher.subscribers ≡ p.subscribers)
    × r.publisher.subscriptions ≡ p.subscriptions

-- A good request, for numbers that are not too old; the next id, and under it a subscription that holds
-- what is replayed, and a subscriber that shows events from those numbers on; a snapshot is requested
-- for each symbol without one.
abbrev pub IsOpened : String → List ℕ → Assoc ℕ → Publisher → Subscribed → Type 0
IsOpened gateway_id symbols from p r =
    (check_request gateway_id symbols from p ≡ SubscribeError.none)
    × (is_too_old from p ≡ false)
    × (r.result ≡ record { subscription = some p.next_id; error = SubscribeError.none })
    × (r.requests ≡ requests_for p.next_id (snapshots symbols from))
    × (lookup p.next_id r.publisher.subscribers
        ≡ some (record { kind = SubscriberKind.market; live = live_states symbols from [] }))
    × (s : Subscription) × (lookup p.next_id r.publisher.subscriptions ≡ some s)
    × (s.gateway_id ≡ gateway_id)
    × s.items ≡ replayed symbols from p

abbrev pub Answers : String → List ℕ → Assoc ℕ → Publisher → Option Subscribed → Type 0
Answers gateway_id symbols from p o =
    (r : Subscribed) × (o ≡ some r)
    × IsConsistent r.publisher
    × (IsRefused p r ⊎ IsOpened gateway_id symbols from p r)

module _ (gateway_id : String) (symbols : List ℕ) (from : Assoc ℕ) (p : Publisher)
    (c : IsConsistent p) where
  new_id : lookup p.next_id p.subscribers ≡ none
  new_id = elim (Option-cases (lookup p.next_id p.subscribers)) [
    | inl free ↦ free
    | inr (entry, there) ↦ absurd (omega (arith, c.fresh p.next_id entry there))
  ]

  refused-Answers :
      (why : SubscribeError)
      → why ≢ SubscribeError.none
      → Answers gateway_id symbols from p (some (refused why p))
  refused-Answers why ne = (_, refl, c, inl (ne, refl, refl, refl, refl))

  module _ (ids_left : p.next_id + 1 < word)
      (room : p.options.queue_capacity + replay_count from p < word)
      (good : check_request gateway_id symbols from p ≡ SubscribeError.none) where
    opened-Answers :
        length (replayed symbols from p) ≤ replay_count from p
        → find_name gateway_id p.market_by_gateway ≡ none
        → is_too_old from p ≡ false
        → Answers gateway_id symbols from p (
            open_with gateway_id symbols from
              (replay_all symbols from p (first_subscription gateway_id from p))
              p)
    unfolding emplace
    opened-Answers fits free recent =
        let s = first_subscription gateway_id from p in
        let whole : s.capacity ≡ p.options.queue_capacity + replay_count from p =
          omega (arith, room) in
        let small : length (replayed symbols from p) ≤ s.capacity = omega (arith, whole, fits) in
        let t = add_items (replayed symbols from p) s in
        let q = count_replayed t p in
        let live = live_states symbols from [] in
        let entry : Subscriber = record { kind = SubscriberKind.market; live = live } in
        rw (replay_all_fits symbols from p s refl (omega (arith, small))) (
          _,
          refl,
          enter-IsConsistent SubscriberKind.market gateway_id live t q c free refl refl small
              ids_left,
          inr (
            good,
            recent,
            refl,
            refl,
            lookup-emplace p.next_id p.next_id entry p.subscribers
                ∙ rw (new_id, ==_refl p.next_id) refl,
            t,
            lookup-insert p.next_id p.next_id t p.subscriptions ∙ rw (==_refl p.next_id) refl,
            refl,
            refl,
          ),
        )

    open_market-Answers :
        length (replayed symbols from p) ≤ replay_count from p
        → Answers gateway_id symbols from p (open_market gateway_id symbols from p)
    unfolding open_market
    open_market-Answers fits =
        let ok = Answers gateway_id symbols from p in
        if_both ok p.closed _ _
          (λ closed. refused-Answers SubscribeError.closed (λ e. ground (arith, e)))
          (λ running.
            if_both ok (is_some (find_name gateway_id p.market_by_gateway)) _ _
              (λ taken.
                refused-Answers SubscribeError.gateway_already_subscribed (λ e. ground (arith, e)))
              (λ free.
                if_both ok (is_too_old from p) _ _
                  (λ old. (_, refl, c, inl ((λ e. ground (arith, e)), refl, refl, refl, refl)))
                  (λ recent. opened-Answers fits (ground (arith, free)) recent)))

  if_good-Answers :
      (why : SubscribeError) (o : Option Subscribed)
      → (why ≡ SubscribeError.none → Answers gateway_id symbols from p o)
      → Answers gateway_id symbols from p (if_good why p o)
  if_good-Answers SubscribeError.none o h = h refl
  if_good-Answers SubscribeError.empty_gateway_id o h =
      refused-Answers SubscribeError.empty_gateway_id (λ e. ground (arith, e))
  if_good-Answers SubscribeError.gateway_already_subscribed o h =
      refused-Answers SubscribeError.gateway_already_subscribed (λ e. ground (arith, e))
  if_good-Answers SubscribeError.unknown_symbol o h =
      refused-Answers SubscribeError.unknown_symbol (λ e. ground (arith, e))
  if_good-Answers SubscribeError.closed o h =
      refused-Answers SubscribeError.closed (λ e. ground (arith, e))
  if_good-Answers SubscribeError.bad_from_seq o h =
      refused-Answers SubscribeError.bad_from_seq (λ e. ground (arith, e))
  if_good-Answers SubscribeError.too_old o h =
      refused-Answers SubscribeError.too_old (λ e. ground (arith, e))

-- A call of subscribe on a publisher whose maps agree never throws, while ids and queue capacities do
-- not overflow: the replay always fits its queue. The maps agree after it. It either refuses, without
-- a subscription, a request or a change of the subscribers; or the request is good and asks for no
-- number that is too old, and it opens a subscription under the next id, which holds the events that
-- the history holds from the numbers asked for on, registers a subscriber that shows the events of
-- those symbols from these numbers on, and requests a snapshot for each of the other symbols.
pub subscribe-Answers :
    (gateway_id : String) (asked : List ℕ) (from : Assoc ℕ) (p : Publisher)
    → IsConsistent p
    → p.next_id + 1 < word
    → p.options.queue_capacity + replay_count from p < word
    → Answers gateway_id (wanted_symbols asked p) from p (subscribe gateway_id asked from p)
unfolding subscribe
subscribe-Answers gateway_id asked from p c ids_left room =
    let symbols = wanted_symbols asked p in
    if_good-Answers gateway_id symbols from p c _ _ (λ good.
      open_market-Answers gateway_id symbols from p c ids_left room good
        (length-replayed symbols from p (wanted_symbols-Distinct asked p)))

-- What a call of subscribe that gave a subscription has done.
pub subscribe-IsOpened :
    (g : String) (asked : List ℕ) (from : Assoc ℕ) (p : Publisher) (r : Subscribed) (id : ℕ)
    → IsConsistent p
    → p.next_id + 1 < word
    → p.options.queue_capacity + replay_count from p < word
    → subscribe g asked from p ≡ some r
    → r.result.subscription ≡ some id
    → (id ≡ p.next_id) × IsConsistent r.publisher × IsOpened g (wanted_symbols asked p) from p r
subscribe-IsOpened g asked from p r id c ids_left room done given =
    let (other, e, kept, how) =
      subst (Answers g (wanted_symbols asked p) from p) done
        (subscribe-Answers g asked from p c ids_left room) in
    let same : other ≡ r = ground (arith, e) in
    let consistent : IsConsistent r.publisher = subst (λ x. IsConsistent x.publisher) same kept in
    elim (subst (λ x. IsRefused p x ⊎ IsOpened g (wanted_symbols asked p) from p x) same how) [
      | inl (wrong, nothing, no_requests, subs, store) ↦ absurd (ground (arith, nothing, given))
      | inr (good, recent, result, requests, entry, s, found, name, items) ↦ (
        ground (arith, ap (λ x. x.subscription) result, given),
        consistent,
        (good, recent, result, requests, entry, s, found, name, items),
      )
    ]
