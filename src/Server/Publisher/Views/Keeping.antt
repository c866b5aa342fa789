-- ===== src/Server/Publisher/Views/Keeping.antt =====
-- Drops leave the other subscribers as they are (server/src/publisher.cpp, `drop`).
use order_book_engine.Prelude.{
  ℕ, false, none, some, List, [], ◌∷◌, ◌≡◌, refl, sym, ◌∙◌, arith, ◌==◌, ==_refl, inl, inr,
  Bool-cases, Option-cases, lookup, lookup-insert, lookup-erase,
}
use order_book_engine.Server.Subscription.{Subscription, EndReason, end_with}
use order_book_engine.Server.Publisher.{
  Subscriber, Publisher, is_member, drop, drop_all, drop_slow, count_slow,
}

-- The subscriber and the subscription of another id.
drop_other :
    (id j : ℕ) (reason : EndReason) (p : Publisher)
    → (j == id) ≡ false
    → (lookup j (drop id reason p).subscribers ≡ lookup j p.subscribers)
      × (lookup j (drop id reason p).subscriptions ≡ lookup j p.subscriptions)
unfolding drop
drop_other id j reason p away = elim (Option-cases (lookup id p.subscribers)) [
  | inl e ↦ rw e (refl, refl)
  | inr (entry, e) ↦ elim (Option-cases (lookup id p.subscriptions)) [
    | inl e2 ↦ rw (e, e2) (refl, refl)
    | inr (s, e2) ↦
        rw (e, e2)
          (
            lookup-erase id j p.subscribers ∙ rw away refl,
            lookup-insert id j (end_with reason s) p.subscriptions ∙ rw away refl,
          )
  ]
]

pub drop_self :
    (id : ℕ) (reason : EndReason) (p : Publisher) (s : Subscription)
    → lookup id p.subscriptions ≡ some s
    → lookup id (drop id reason p).subscribers ≡ none
unfolding drop
drop_self id reason p s found = elim (Option-cases (lookup id p.subscribers)) [
  | inl e ↦ rw e e
  | inr (entry, e) ↦ rw (e, found) (lookup-erase id id p.subscribers ∙ rw (==_refl id) refl)
]

-- Nobody is registered by a drop.
pub drop_none :
    (id j : ℕ) (reason : EndReason) (p : Publisher)
    → lookup j p.subscribers ≡ none
    → lookup j (drop id reason p).subscribers ≡ none
unfolding drop
drop_none id j reason p none_there = elim (Option-cases (lookup id p.subscribers)) [
  | inl e ↦ rw e none_there
  | inr (entry, e) ↦ elim (Option-cases (lookup id p.subscriptions)) [
    | inl e2 ↦ rw (e, e2) none_there
    | inr (s, e2) ↦ rw (e, e2) (ground (arith, lookup-erase id j p.subscribers, none_there))
  ]
]

pub drop_all_none :
    (ids : List ℕ) (j : ℕ) (p : Publisher)
    → lookup j p.subscribers ≡ none
    → lookup j (drop_all ids p).subscribers ≡ none
unfolding drop_all
drop_all_none [] j p h = h
drop_all_none (id ∷ ids) j p h =
    drop_all_none ids j (drop_slow id p) (drop_none id j EndReason.slow_consumer (count_slow p) h)

-- Who is registered after a drop was registered before it, was not dropped, and has its subscription.
abbrev pub Stays : ℕ → Subscription → Subscriber → Publisher → Publisher → Type 0
Stays id s entry p q = (lookup id p.subscribers ≡ some entry) × (lookup id q.subscriptions ≡ some s)

pub drop-Stays :
    (id j : ℕ) (reason : EndReason) (p : Publisher) (s : Subscription) (entry : Subscriber)
    → lookup j p.subscriptions ≡ some s
    → lookup j (drop id reason p).subscribers ≡ some entry
    → ((j == id) ≡ false) × Stays j s entry p (drop id reason p)
drop-Stays id j reason p s entry found there = elim (Bool-cases (j == id)) [
  | inl same ↦
      let ids : j ≡ id = ground arith in
      let gone : lookup j (drop id reason p).subscribers ≡ none =
        rw ids (drop_self id reason p s (rw (← ids) found)) in
      absurd (ground (arith, gone, there))
  | inr away ↦
      let (subs, store) = drop_other id j reason p away in (away, (sym subs ∙ there, store ∙ found))
]

pub drop_all-Stays :
    (ids : List ℕ) (j : ℕ) (p : Publisher) (s : Subscription) (entry : Subscriber)
    → lookup j p.subscriptions ≡ some s
    → lookup j (drop_all ids p).subscribers ≡ some entry
    → (is_member j ids ≡ false) × Stays j s entry p (drop_all ids p)
unfolding drop_all
drop_all-Stays [] j p s entry found there = (refl, (there, found))
drop_all-Stays (id ∷ ids) j p s entry found there = elim (Bool-cases (j == id)) [
  | inl same ↦
      let ids_same : id ≡ j = ground arith in
      let gone : lookup j (drop_slow id p).subscribers ≡ none =
        rw ids_same (drop_self j EndReason.slow_consumer (count_slow p) s found) in
      absurd (ground (arith, drop_all_none ids j (drop_slow id p) gone, there))
  | inr away ↦
      let (subs, store) = drop_other id j EndReason.slow_consumer (count_slow p) away in
      let (out, (known, kept)) =
        drop_all-Stays ids j (drop_slow id p) s entry (store ∙ found) there in
      (rw away out, (sym subs ∙ known, kept))
]
