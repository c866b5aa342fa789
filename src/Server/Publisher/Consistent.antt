-- ===== src/Server/Publisher/Consistent.antt =====
-- The maps of the publisher agree with one another (server/src/publisher.cpp).
pub mod Dropping
pub mod Handling
pub mod Entering
use Prim.Native.String.{String}
use order_book_engine.Prelude.{
  ℕ, ◌+◌, ◌<◌, ◌≤◌, leb, Bool, true, false, Option, none, some, List, [], ◌∷◌, ◌++◌, ◌≡◌, refl, sym,
  subst, ◌∙◌, arith, if◌then◌else◌, ◌==◌, Bool-cases, Option-cases, Assoc, lookup, insert, erase,
  lookup-insert, lookup-erase, keys, Distinct, length, length-append, NameMap, find_name, inl, inr,
}
use order_book_engine.Server.Subscription.{
  FeedItem, EndReason, Subscription, is_ended, try_push, end_with,
}
use order_book_engine.Server.Publisher.{
  SubscriberKind, Subscriber, Publisher, by_gateway, offer, offer_found,
}

-- A registered subscriber's subscription has not ended, holds no more items than its capacity, and is
-- the one that its gateway's entry names.
abbrev pub IsOpen : Assoc Subscription → (SubscriberKind → NameMap ℕ) → ℕ → Subscriber → Type 0
IsOpen store names id entry =
    (s : Subscription) × (lookup id store ≡ some s)
    × (is_ended s.end_reason ≡ false)
    × (length s.items ≤ s.capacity)
    × find_name s.gateway_id (names entry.kind) ≡ some id

-- The entry of a gateway names a registered subscriber of its kind, whose subscription has the name.
abbrev pub IsNamed : Assoc Subscriber → Assoc Subscription → SubscriberKind → ℕ → String → Type 0
IsNamed subs store kind id gateway_id =
    (entry : Subscriber) × (lookup id subs ≡ some entry)
    × (entry.kind ≡ kind)
    × (s : Subscription) × (lookup id store ≡ some s)
    × s.gateway_id ≡ gateway_id

pub record Agree (subs : Assoc Subscriber) (store : Assoc Subscription)
    (names : SubscriberKind → NameMap ℕ) (next : ℕ) : Type 0 where
  pub distinct : Distinct (keys subs)
  pub registered :
      (id : ℕ) (entry : Subscriber) → lookup id subs ≡ some entry → IsOpen store names id entry
  pub named :
      (kind : SubscriberKind) (gateway_id : String) (id : ℕ)
      → find_name gateway_id (names kind) ≡ some id
      → IsNamed subs store kind id gateway_id
  pub fresh : (id : ℕ) (entry : Subscriber) → lookup id subs ≡ some entry → id < next

abbrev pub IsConsistent : Publisher → Type 0
IsConsistent p = Agree p.subscribers p.subscriptions (λ kind. by_gateway kind p) p.next_id

-- A subscription after pushes and reads.
pub record Continues (s t : Subscription) : Type 0 where
  pub gateway : t.gateway_id ≡ s.gateway_id
  pub capacity : t.capacity ≡ s.capacity
  pub reason : t.end_reason ≡ s.end_reason
  pub small : length s.items ≤ s.capacity → length t.items ≤ t.capacity

pub Continues-refl : (s : Subscription) → Continues s s
Continues-refl s = record { gateway = refl; capacity = refl; reason = refl; small = λ h. h }

pub Continues-trans : {s t u : Subscription} → Continues s t → Continues t u → Continues s u
Continues-trans c d = record {
  gateway = d.gateway ∙ c.gateway;
  capacity = d.capacity ∙ c.capacity;
  reason = d.reason ∙ c.reason;
  small = λ h. d.small (c.small h);
}

abbrev pub AllContinue : Assoc Subscription → Assoc Subscription → Type 0
AllContinue store later =
    (id : ℕ) (s : Subscription)
    → lookup id store ≡ some s
    → (t : Subscription) × (lookup id later ≡ some t) × Continues s t

pub AllContinue-refl : (store : Assoc Subscription) → AllContinue store store
AllContinue-refl store id s e = (s, e, Continues-refl s)

pub AllContinue-trans :
    (a b c : Assoc Subscription) → AllContinue a b → AllContinue b c → AllContinue a c
AllContinue-trans a b c h k id s e =
    let (t, found, d) = h id s e in
    let (u, there, f) = k id t found in (u, there, Continues-trans d f)

pub AllContinue-insert :
    (store : Assoc Subscription) (id : ℕ) (s t : Subscription)
    → lookup id store ≡ some s
    → Continues s t
    → AllContinue store (insert id t store)
AllContinue-insert store id s t found c j u e = elim (Bool-cases (j == id)) [
  | inl same ↦
      let here : u ≡ s = ground arith in
      (t, lookup-insert id j t store ∙ rw same refl, subst (λ x. Continues x t) (sym here) c)
  | inr other ↦ (u, lookup-insert id j t store ∙ rw other e, Continues-refl u)
]

pub try_push-Continues : (item : FeedItem) (s : Subscription) → Continues s (try_push item s).1
unfolding try_push
try_push-Continues item s = record {
  gateway = ground arith;
  capacity = ground arith;
  reason = ground arith;
  small = λ h. ground (arith, length-append s.items (item ∷ []));
}

pub offer-AllContinue :
    (id : ℕ) (item : FeedItem) (store : Assoc Subscription)
    → AllContinue store (offer id item store).1
unfolding offer
offer-AllContinue id item store = elim (Option-cases (lookup id store)) [
  | inl e ↦ rw e (AllContinue-refl store)
  | inr (s, e) ↦ rw e (AllContinue-insert store id s _ e (try_push-Continues item s))
]

-- The maps still agree over a store whose subscriptions go on.
pub Agree-store :
    (subs : Assoc Subscriber) (store later : Assoc Subscription)
    (names : SubscriberKind → NameMap ℕ) (next : ℕ)
    → AllContinue store later
    → Agree subs store names next
    → Agree subs later names next
Agree-store subs store later names next c a = record {
  distinct = a.distinct;
  registered = λ id entry e.
      let (s, found, running, small, name) = a.registered id entry e in
      let (t, there, d) = c id s found in
      (t, there, rw d.reason running, d.small small, rw d.gateway name);
  named = λ kind g id e.
      let (entry, found, k, s, there, name) = a.named kind g id e in
      let (t, later_there, d) = c id s there in (entry, found, k, t, later_there, d.gateway ∙ name);
  fresh = a.fresh;
}
