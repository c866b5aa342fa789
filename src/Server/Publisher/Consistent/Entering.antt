-- ===== src/Server/Publisher/Consistent/Entering.antt =====
-- A new subscriber keeps the maps in agreement (server/src/publisher.cpp, `subscribe`).
use Prim.Native.String.{String}
use order_book_engine.Prelude.{
  ℕ, ◌+◌, ◌<◌, ◌≤◌, ◌%◌, true, false, none, some, ◌≡◌, refl, sym, ap, ◌∙◌, arith, if◌then◌else◌,
  ◌==◌, ==_iff, ==_refl, Bool-cases, Option-cases, Assoc, lookup, insert, emplace, is_some,
  lookup-insert, Distinct-insert, length, NameMap, find_name, emplace_name, find_name-emplace_name,
  same_name, same_name_iff, same_name_refl, inl, inr, ◌⊎◌,
}
use order_book_engine.Server.Subscription.{Subscription, is_ended}
use order_book_engine.Server.Publisher.{
  SubscriberKind, Subscriber, SymbolState, Publisher, pick, by_gateway,
}
use order_book_engine.Server.Publisher.Subscribing.{enter}
use order_book_engine.Book.State.{word}
use order_book_engine.Server.Publisher.Consistent.{Agree, IsConsistent, IsOpen, IsNamed}
use order_book_engine.Server.Publisher.Consistent.Dropping.{same_kind, same_kind_eq, same_kind_refl}

abbrev entered_names :
    SubscriberKind → String → ℕ → (SubscriberKind → NameMap ℕ) → SubscriberKind → NameMap ℕ
entered_names kind g id names k =
    pick k (pick kind (emplace_name g id (names kind)) (names SubscriberKind.market))
      (pick kind (names SubscriberKind.replies) (emplace_name g id (names kind)))

find_entered :
    (kind k : SubscriberKind) (g j : String) (id : ℕ) (names : SubscriberKind → NameMap ℕ)
    → find_name g (names kind) ≡ none
    → find_name j (entered_names kind g id names k) ≡ (
        if same_kind kind k
        then (if same_name j g then some id else find_name j (names k))
        else find_name j (names k))
unfolding same_kind
find_entered SubscriberKind.market SubscriberKind.market g j id names e =
    find_name-emplace_name g j id _ e
find_entered SubscriberKind.market SubscriberKind.replies g j id names e = refl
find_entered SubscriberKind.replies SubscriberKind.market g j id names e = refl
find_entered SubscriberKind.replies SubscriberKind.replies g j id names e =
    find_name-emplace_name g j id _ e

find_entered_other :
    (kind k : SubscriberKind) (g j : String) (id i : ℕ) (names : SubscriberKind → NameMap ℕ)
    → find_name g (names kind) ≡ none
    → find_name j (names k) ≡ some i
    → find_name j (entered_names kind g id names k) ≡ some i
find_entered_other kind k g j id i names free e = elim (Bool-cases (same_kind kind k)) [
  | inr differ ↦ find_entered kind k g j id names free ∙ rw differ e
  | inl same ↦ elim (Bool-cases (same_name j g)) [
    | inr differ ↦ find_entered kind k g j id names free ∙ rw (same, differ) e
    | inl equal ↦
        let both : find_name j (names k) ≡ none =
          rw ((same_name_iff j g).0 equal, ← same_kind_eq kind k same) free in
        absurd (ground (arith, both, e))
  ]
]

find_entered_was :
    (kind k : SubscriberKind) (g j : String) (id i : ℕ) (names : SubscriberKind → NameMap ℕ)
    → find_name g (names kind) ≡ none
    → find_name j (entered_names kind g id names k) ≡ some i
    → (find_name j (names k) ≡ some i) ⊎ ((i ≡ id) × (kind ≡ k) × (j ≡ g))
find_entered_was kind k g j id i names free e = elim (Bool-cases (same_kind kind k)) [
  | inr differ ↦ inl (ground (arith, find_entered kind k g j id names free, differ, e))
  | inl same ↦ elim (Bool-cases (same_name j g)) [
    | inr differ ↦ inl (ground (arith, find_entered kind k g j id names free, same, differ, e))
    | inl equal ↦ inr (
      ground (arith, find_entered kind k g j id names free, same, equal, e),
      same_kind_eq kind k same,
      (same_name_iff j g).0 equal,
    )
  ]
]

module _ (subs : Assoc Subscriber) (store : Assoc Subscription) (names : SubscriberKind → NameMap ℕ)
    (id : ℕ) (entry : Subscriber) (s : Subscription) (a : Agree subs store names id)
    (free : find_name s.gateway_id (names entry.kind) ≡ none)
    (running : is_ended s.end_reason ≡ false) (small : length s.items ≤ s.capacity) where
  not_there : (j : ℕ) (x : Subscriber) → lookup j subs ≡ some x → (j == id) ≡ false
  not_there j x e = ground (arith, a.fresh j x e)

  IsOpen-entered :
      (j : ℕ) (x : Subscriber)
      → lookup j (insert id entry subs) ≡ some x
      → IsOpen (insert id s store) (entered_names entry.kind s.gateway_id id names) j x
  IsOpen-entered j x e = elim (Bool-cases (j == id)) [
    | inl here ↦
        let ids : id ≡ j = sym ((==_iff j id).0 here) in
        let entries : entry ≡ x = ground (arith, e, lookup-insert id j entry subs) in
        let kinds : entry.kind ≡ x.kind = ap (λ y. y.kind) entries in
        let name =
          find_entered entry.kind entry.kind s.gateway_id s.gateway_id id names free
          ∙ rw (same_kind_refl entry.kind, same_name_refl s.gateway_id) refl in
        (
          s,
          lookup-insert id j s store ∙ rw here refl,
          running,
          small,
          ap (λ k. find_name s.gateway_id (entered_names entry.kind s.gateway_id id names k))
                (sym kinds)
              ∙ name
              ∙ ap (λ i. some i) ids,
        )
    | inr away ↦
        let still : lookup j subs ≡ some x = ground (arith, e, lookup-insert id j entry subs) in
        let (u, there, runs, few, name) = a.registered j x still in
        (
          u,
          lookup-insert id j s store ∙ rw away there,
          runs,
          few,
          find_entered_other entry.kind x.kind s.gateway_id u.gateway_id id j names free name,
        )
  ]

  IsNamed-entered :
      (kind : SubscriberKind) (g : String) (j : ℕ)
      → find_name g (entered_names entry.kind s.gateway_id id names kind) ≡ some j
      → IsNamed (insert id entry subs) (insert id s store) kind j g
  IsNamed-entered kind g j e =
      elim (find_entered_was entry.kind kind s.gateway_id g id j names free e) [
        | inl was ↦
            let (x, there, k, u, found, name) = a.named kind g j was in
            let away = not_there j x there in
            (
              x,
              lookup-insert id j entry subs ∙ rw away there,
              k,
              u,
              lookup-insert id j s store ∙ rw away found,
              name,
            )
        | inr (ids, kinds, strings) ↦
            let here : (j == id) ≡ true = rw ids (==_refl id) in
            (
              entry,
              lookup-insert id j entry subs ∙ rw here refl,
              kinds,
              s,
              lookup-insert id j s store ∙ rw here refl,
              sym strings,
            )
      ]

  pub Agree-entered :
      Agree
        (insert id entry subs)
        (insert id s store)
        (entered_names entry.kind s.gateway_id id names)
        (id + 1)
  Agree-entered = record {
    distinct = Distinct-insert id entry subs a.distinct;
    registered = IsOpen-entered;
    named = IsNamed-entered;
    fresh = λ j x e. elim (Bool-cases (j == id)) [
      | inl here ↦ ground arith
      | inr away ↦
          let h = a.fresh j x (ground (arith, lookup-insert id j entry subs)) in omega (arith, h)
    ];
  }

pub enter-IsConsistent :
    (kind : SubscriberKind) (gateway_id : String) (live : Assoc SymbolState) (s : Subscription)
    (p : Publisher)
    → IsConsistent p
    → find_name gateway_id (by_gateway kind p) ≡ none
    → s.gateway_id ≡ gateway_id
    → is_ended s.end_reason ≡ false
    → length s.items ≤ s.capacity
    → p.next_id + 1 < word
    → IsConsistent (enter kind gateway_id live s p)
unfolding emplace
enter-IsConsistent kind gateway_id live s p c free name running small room =
    let new : is_some (lookup p.next_id p.subscribers) ≡ false =
      elim (Option-cases (lookup p.next_id p.subscribers)) [
        | inl e ↦ rw e refl
        | inr (x, e) ↦ absurd (omega (arith, c.fresh p.next_id x e))
      ] in
    let number : (p.next_id + 1) % word ≡ p.next_id + 1 = omega arith in
    rw (← name, new, number)
      (Agree-entered p.subscribers p.subscriptions (λ k. by_gateway k p) p.next_id
        (record { kind = kind; live = live }) s c (rw name free) running small)
