-- ===== src/Server/Publisher/Joining/Others.antt =====
-- A new subscriber leaves the others as they are (server/src/publisher.cpp, `subscribe`).
use Prim.Native.String.{String}
use order_book_engine.Prelude.{
  ℕ, ◌+◌, ◌<◌, ◌≤◌, false, Option, none, some, List, ◌≡◌, refl, subst, ◌∙◌, inl, inr, ◌⊎◌, arith,
  Assoc, lookup, lookup-insert, lookup-emplace, ◌==◌, find_name,
}
use order_book_engine.Book.State.{word}
use order_book_engine.Server.Subscription.{Subscription, new_subscription}
use order_book_engine.Server.Publisher.{
  SubscriberKind, SymbolState, Subscriber, Publisher, PublisherStats, by_gateway,
}
use order_book_engine.Server.Publisher.Subscribing.{enter, count_too_old, Subscribed, subscribe}
use order_book_engine.Server.Publisher.Consistent.{IsConsistent, Continues}
use order_book_engine.Server.Publisher.Consistent.Entering.{enter-IsConsistent}
use order_book_engine.Server.Publisher.Recording.Handling.{SameHistory}
use order_book_engine.Server.Publisher.Joining.{
  Request, open_kind, open_stream, joined, open_kind-Of,
}

-- A call keeps the histories.
abbrev pub Notes : Publisher → Option Publisher → Type 0
Notes p none = Unit
Notes p (some q) = SameHistory p q

pub open_stream-Notes : (q : Request) (p : Publisher) → Notes p (joined (open_stream q p))
open_stream-Notes q p =
    open_kind-Of (Notes p) p tt (refl, refl, refl) (refl, refl, refl)
      (λ kind g live capacity s stats free h. (refl, refl, refl)) q.kind q

-- The maps agree, and the others are registered as they were.
pub record Joins (p q : Publisher) : Type 0 where
  pub consistent : IsConsistent q
  pub number : (q.next_id ≡ p.next_id) ⊎ (q.next_id ≡ p.next_id + 1)
  pub subscribers :
      (j : ℕ) → (j == p.next_id) ≡ false → lookup j q.subscribers ≡ lookup j p.subscribers
  pub subscriptions :
      (j : ℕ) → (j == p.next_id) ≡ false → lookup j q.subscriptions ≡ lookup j p.subscriptions

abbrev pub JoinsIn : Publisher → Option Publisher → Type 0
JoinsIn p none = Unit
JoinsIn p (some q) = Joins p q

-- Only its counters have changed.
counted-Joins :
    (p : Publisher) (stats : PublisherStats) → IsConsistent p → Joins p (record p { stats = stats })
counted-Joins p stats c = record {
  consistent = c;
  number = inl refl;
  subscribers = λ j away. refl;
  subscriptions = λ j away. refl;
}

entered-Joins :
    (kind : SubscriberKind) (g : String) (live : Assoc SymbolState) (capacity : ℕ)
    (s : Subscription) (stats : PublisherStats) (p : Publisher)
    → IsConsistent p
    → p.next_id + 1 < word
    → find_name g (by_gateway kind p) ≡ none
    → Continues (new_subscription p.next_id g capacity) s
    → Joins p (enter kind g live s (record p { stats = stats }))
entered-Joins kind g live capacity s stats p c ids_left free d = record {
  consistent =
      enter-IsConsistent kind g live s (record p { stats = stats }) c free d.gateway
        (rw d.reason refl) (d.small (omega arith)) ids_left;
  number = inr (omega (arith, ids_left));
  subscribers = λ j away.
      let entry : Subscriber = record { kind = kind; live = live } in
      ground (arith, lookup-emplace p.next_id j entry p.subscribers, away);
  subscriptions = λ j away. lookup-insert p.next_id j s p.subscriptions ∙ rw away refl;
}

pub open_stream-JoinsIn :
    (q : Request) (p : Publisher)
    → IsConsistent p
    → p.next_id + 1 < word
    → JoinsIn p (joined (open_stream q p))
open_stream-JoinsIn q p c ids_left =
    open_kind-Of (JoinsIn p) p tt (counted-Joins p p.stats c)
      (counted-Joins p (count_too_old p).stats c)
      (λ kind g live capacity s stats free d.
        entered-Joins kind g live capacity s stats p c ids_left free d)
      q.kind q

pub subscribe-Joins :
    (g : String) (asked : List ℕ) (from : Assoc ℕ) (p : Publisher) (r : Subscribed)
    → IsConsistent p
    → p.next_id + 1 < word
    → subscribe g asked from p ≡ some r
    → Joins p r.publisher × (r.publisher.next_id ≤ p.next_id + 1)
unfolding open_kind
subscribe-Joins g asked from p r c ids_left done =
    let x : Request = record {
      kind = SubscriberKind.market;
      gateway_id = g;
      symbols = asked;
      from_seq = from;
    } in
    let joins : Joins p r.publisher =
      subst (λ o. JoinsIn p (joined o)) done (open_stream-JoinsIn x p c ids_left) in
    (joins, elim joins.number [ inl same ↦ omega (arith, same) | inr next ↦ omega (arith, next) ])

pub subscribe-Notes :
    (g : String) (asked : List ℕ) (from : Assoc ℕ) (p : Publisher) (r : Subscribed)
    → subscribe g asked from p ≡ some r
    → SameHistory p r.publisher
unfolding open_kind
subscribe-Notes g asked from p r done =
    let x : Request = record {
      kind = SubscriberKind.market;
      gateway_id = g;
      symbols = asked;
      from_seq = from;
    } in
    subst (λ o. Notes p (joined o)) done (open_stream-Notes x p)
