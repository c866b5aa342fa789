-- ===== src/Server/Publisher/Consistent/Dropping.antt =====
-- Dropping a subscriber keeps the maps in agreement (server/src/publisher.cpp, `drop` and `close`).
use Prim.Native.String.{String}
use order_book_engine.Prelude.{
  ℕ, Bool, true, false, none, some, List, [], ◌∷◌, ◌≡◌, refl, sym, ap, ◌∙◌, arith, if◌then◌else◌,
  ◌==◌, Bool-cases, Option-cases, Assoc, lookup, insert, erase, lookup-insert, lookup-erase,
  Distinct-erase, NameMap, find_name, erase_name, find_name-erase_name, same_name, same_name_iff,
  inl, inr, ◌⊎◌,
}
use order_book_engine.Server.Subscription.{EndReason, Subscription, end_with}
use order_book_engine.Server.Publisher.{
  SubscriberKind, Subscriber, Publisher, pick, by_gateway, drop, drop_all, drop_slow, count_slow,
}
use order_book_engine.Server.Publisher.Consistent.{Agree, IsConsistent, IsOpen, IsNamed}

-- The names after a subscriber of a kind has left.
abbrev left_names :
    SubscriberKind → String → (SubscriberKind → NameMap ℕ) → SubscriberKind → NameMap ℕ
left_names kind g names k =
    pick k (pick kind (erase_name g (names kind)) (names SubscriberKind.market))
      (pick kind (names SubscriberKind.replies) (erase_name g (names kind)))

unfoldable pub same_kind : SubscriberKind → SubscriberKind → Bool
same_kind SubscriberKind.market SubscriberKind.market = true
same_kind SubscriberKind.replies SubscriberKind.replies = true
same_kind _ _ = false

find_left :
    (kind k : SubscriberKind) (g j : String) (names : SubscriberKind → NameMap ℕ)
    → find_name j (left_names kind g names k) ≡ (
        if same_kind kind k
        then (if same_name j g then none else find_name j (names k))
        else find_name j (names k))
unfolding same_kind
find_left SubscriberKind.market SubscriberKind.market g j names = find_name-erase_name g j _
find_left SubscriberKind.market SubscriberKind.replies g j names = refl
find_left SubscriberKind.replies SubscriberKind.market g j names = refl
find_left SubscriberKind.replies SubscriberKind.replies g j names = find_name-erase_name g j _

pub same_kind_eq : (k j : SubscriberKind) → same_kind k j ≡ true → k ≡ j
unfolding same_kind
same_kind_eq SubscriberKind.market SubscriberKind.market e = refl
same_kind_eq SubscriberKind.market SubscriberKind.replies e = absurd (ground arith)
same_kind_eq SubscriberKind.replies SubscriberKind.market e = absurd (ground arith)
same_kind_eq SubscriberKind.replies SubscriberKind.replies e = refl

pub same_kind_refl : (k : SubscriberKind) → same_kind k k ≡ true
unfolding same_kind
same_kind_refl SubscriberKind.market = refl
same_kind_refl SubscriberKind.replies = refl

find_kept :
    (kind k : SubscriberKind) (g j : String) (names : SubscriberKind → NameMap ℕ) (id i : ℕ)
    → find_name g (names kind) ≡ some id
    → find_name j (names k) ≡ some i
    → (i == id) ≡ false
    → find_name j (left_names kind g names k) ≡ some i
find_kept kind k g j names id i own other apart = elim (Bool-cases (same_kind kind k)) [
  | inr differ ↦ find_left kind k g j names ∙ rw differ other
  | inl same ↦ elim (Bool-cases (same_name j g)) [
    | inr differ ↦ find_left kind k g j names ∙ rw (same, differ) other
    | inl equal ↦
        let kinds = same_kind_eq kind k same in
        let strings = (same_name_iff j g).0 equal in
        let both : find_name j (names k) ≡ some id = rw (strings, ← kinds) own in
        absurd (ground (arith, both, other, apart))
  ]
]

find_was :
    (kind k : SubscriberKind) (g j : String) (names : SubscriberKind → NameMap ℕ) (i : ℕ)
    → find_name j (left_names kind g names k) ≡ some i
    → (find_name j (names k) ≡ some i) × ((same_kind kind k ≡ false) ⊎ (same_name j g ≡ false))
find_was kind k g j names i e = ground (arith, find_left kind k g j names)

module _ (subs : Assoc Subscriber) (store : Assoc Subscription) (names : SubscriberKind → NameMap ℕ)
    (next id : ℕ) (entry : Subscriber) (s t : Subscription) (a : Agree subs store names next)
    (known : lookup id subs ≡ some entry) (found : lookup id store ≡ some s) where
  IsOpen-left :
      (j : ℕ) (other : Subscriber)
      → lookup j (erase id subs) ≡ some other
      → IsOpen (insert id t store) (left_names entry.kind s.gateway_id names) j other
  IsOpen-left j other e =
      let still : lookup j subs ≡ some other = ground (arith, lookup-erase id j subs) in
      let apart : (j == id) ≡ false = ground (arith, lookup-erase id j subs) in
      let (u, there, running, small, name) = a.registered j other still in
      let (own, own_there, own_running, own_small, own_name) = a.registered id entry known in
      let mine : own ≡ s = ground (arith, own_there, found) in
      let named_here : find_name s.gateway_id (names entry.kind) ≡ some id = rw (← mine) own_name in
      let stays : lookup j (insert id t store) ≡ some u =
        ground (arith, lookup-insert id j t store) in
      (
        u,
        stays,
        running,
        small,
        find_kept entry.kind other.kind s.gateway_id u.gateway_id names id j named_here name apart,
      )

  IsNamed-left :
      (kind : SubscriberKind) (g : String) (j : ℕ)
      → find_name g (left_names entry.kind s.gateway_id names kind) ≡ some j
      → IsNamed (erase id subs) (insert id t store) kind j g
  IsNamed-left kind g j e =
      let (was, differ) = find_was entry.kind kind s.gateway_id g names j e in
      let (other, still, k, u, there, name) = a.named kind g j was in
      let apart : (j == id) ≡ false = elim (Bool-cases (j == id)) [
        | inr other_id ↦ other_id
        | inl same ↦
            let entries : entry ≡ other = ground (arith, still, known) in
            let subscriptions : s ≡ u = ground (arith, there, found) in
            let kinds : same_kind entry.kind kind ≡ true = rw (entries, k) (same_kind_refl kind) in
            let strings : same_name g s.gateway_id ≡ true =
              (same_name_iff g s.gateway_id).1
                (sym (ap (λ x. x.gateway_id) subscriptions ∙ name)) in
            absurd (ground (arith, differ, kinds, strings))
      ] in
      (
        other,
        ground (arith, lookup-erase id j subs),
        k,
        u,
        ground (arith, lookup-insert id j t store),
        name,
      )

  pub Agree-left :
      Agree (erase id subs) (insert id t store) (left_names entry.kind s.gateway_id names) next
  Agree-left = record {
    distinct = Distinct-erase id subs a.distinct;
    registered = IsOpen-left;
    named = IsNamed-left;
    fresh = λ j other e. a.fresh j other (ground (arith, lookup-erase id j subs));
  }

pub drop-IsConsistent :
    (id : ℕ) (reason : EndReason) (p : Publisher) → IsConsistent p → IsConsistent (drop id reason p)
unfolding drop
drop-IsConsistent id reason p c = elim (Option-cases (lookup id p.subscribers)) [
  | inl e ↦ rw e c
  | inr (entry, e) ↦ elim (Option-cases (lookup id p.subscriptions)) [
    | inl e2 ↦ rw (e, e2) c
    | inr (s, e2) ↦
        rw (e, e2)
          (Agree-left p.subscribers p.subscriptions (λ k. by_gateway k p) p.next_id id entry s
            (end_with reason s) c e e2)
  ]
]

pub drop_all-IsConsistent :
    (ids : List ℕ) (p : Publisher) → IsConsistent p → IsConsistent (drop_all ids p)
unfolding drop_all
drop_all-IsConsistent [] p c = c
drop_all-IsConsistent (id ∷ ids) p c =
    drop_all-IsConsistent ids (drop_slow id p)
      (drop-IsConsistent id EndReason.slow_consumer (count_slow p) c)
