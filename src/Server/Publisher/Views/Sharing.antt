-- ===== src/Server/Publisher/Views/Sharing.antt =====
-- The publisher shows each subscriber its view, whatever the others do (server/src/publisher.cpp).
use Prim.Native.String.{String}
use order_book_engine.Prelude.{
  ℕ, true, false, ◌&&◌, Option, none, some, [], ◌∷◌, ◌≡◌, ◌≢◌, refl, sym, ap, subst, &&_parts, ◌∙◌,
  arith, if◌then◌else◌, inl, inr, ◌⊎◌, Bool-cases, Option-cases, ◌==◌, ==_iff, lookup, insert,
  lookup-insert, find_name, same_name, same_name_iff, same_name_refl, is_some,
}
use order_book_engine.Server.Commands.{MarketEvent, Reply, SnapshotReady, Output}
use order_book_engine.Server.Subscription.{FeedItem, Subscription, is_ended}
use order_book_engine.Server.Publisher.{
  SubscriberKind, SymbolState, Subscriber, Publisher, pick, count_lost_reply, by_gateway,
  show_event, count_event, remember, make_live, route_event, route_reply, push_one, route_snapshot,
  close, handle,
}
use order_book_engine.Server.Publisher.Consistent.{IsConsistent}
use order_book_engine.Server.Publisher.Consistent.Handling.{show_event-AllContinue}
use order_book_engine.Server.Publisher.Replaying.{add_items}
use order_book_engine.Server.Publisher.Views.{waits, gets_replies, shown, go_live, after}
use order_book_engine.Server.Publisher.Views.Keeping.{drop_all-Stays}
use order_book_engine.Server.Publisher.Views.Pushing.{show_event-Shows, push_one-Stays, add_nothing}

-- Who is still registered has seen the output, if it was shown to it, and nothing else.
abbrev pub Sees : ℕ → Output → Subscriber → Subscription → Publisher → Subscriber → Type 0
Sees id o entry s q later =
    (later ≡ after id o entry)
    × (lookup id q.subscriptions ≡ some (add_items (shown id s.gateway_id o entry) s))

pick_replies {ℓ} :
    {A : Type ℓ} (k : SubscriberKind) → gets_replies k ≡ true → (m r : A) → pick k m r ≡ r
pick_replies SubscriberKind.market e m r = absurd (ground arith)
pick_replies SubscriberKind.replies e m r = refl

go_live_calm :
    (symbol : ℕ) (o : Option SymbolState) (entry : Subscriber)
    → waits o ≡ false
    → go_live symbol o entry ≡ entry
go_live_calm symbol none entry h = refl
go_live_calm symbol (some st) entry h = ground arith

closed_empty : (p : Publisher) (id : ℕ) (x : Subscriber) → lookup id (close p).subscribers ≢ some x
unfolding close lookup
closed_empty p id x e = absurd (ground arith)

module _ (id : ℕ) (entry : Subscriber) (s : Subscription) (p : Publisher) (later : Subscriber)
    (c : IsConsistent p) (known : lookup id p.subscribers ≡ some entry)
    (found : lookup id p.subscriptions ≡ some s) where
  running : is_ended s.end_reason ≡ false
  running =
      let (t, there, runs, small, name) = c.registered id entry known in
      let same : s ≡ t = ground (arith, there, found) in rw same runs

  named : find_name s.gateway_id (by_gateway entry.kind p) ≡ some id
  named =
      let (t, there, runs, small, name) = c.registered id entry known in
      let same : s ≡ t = ground (arith, there, found) in rw same name

  event-Sees :
      (e : MarketEvent)
      → lookup id (route_event e p).subscribers ≡ some later
      → Sees id (Output.market_event e) entry s (route_event e p) later
  unfolding route_event
  event-Sees e there =
      let r = show_event e p.subscribers p.subscriptions in
      let q = record (count_event (remember e p)) { subscriptions = r.0 } in
      let (u, has, more) = show_event-AllContinue e p.subscribers p.subscriptions id s found in
      let (out, (still, kept)) = drop_all-Stays r.1 id q u later has there in
      elim (show_event-Shows e p.subscribers p.subscriptions id entry s c.distinct known found
        running) [
          | inl slow ↦ absurd (ground (arith, slow, out))
          | inr added ↦ (ground (arith, still, known), kept ∙ sym has ∙ added)
        ]

  find_mine :
      (g : String)
      → (gets_replies entry.kind && same_name g s.gateway_id) ≡ true
      → find_name g p.replies_by_gateway ≡ some id
  find_mine g h =
      let (kind, name) = &&_parts (gets_replies entry.kind) (same_name g s.gateway_id) h in
      let strings : g ≡ s.gateway_id = (same_name_iff g s.gateway_id).0 name in
      rw strings
        (ap (λ m. find_name s.gateway_id m) (sym (pick_replies entry.kind kind _ _)) ∙ named)

  mine_found :
      (g : String)
      → find_name g p.replies_by_gateway ≡ some id
      → (gets_replies entry.kind && same_name g s.gateway_id) ≡ true
  mine_found g h =
      let (x, there, kind, u, has, name) = c.named SubscriberKind.replies g id h in
      let entries : entry ≡ x = ground (arith, known, there) in
      let subscriptions : s ≡ u = ground (arith, found, has) in
      let kinds : gets_replies entry.kind ≡ true = rw (entries, kind) refl in
      let strings : same_name g s.gateway_id ≡ true = rw (subscriptions, name) (same_name_refl g) in
      rw (kinds, strings) refl

  -- The one subscriber of replies that the gateway's entry names.
  names_me :
      (g : String) (j : ℕ)
      → find_name g p.replies_by_gateway ≡ some j
      → (id == j) ≡ (gets_replies entry.kind && same_name g s.gateway_id)
  names_me g j e = elim (Bool-cases (id == j)) [
    | inl same ↦
        let ids : j ≡ id = sym ((==_iff id j).0 same) in
        same ∙ sym (mine_found g (e ∙ ap (λ i. some i) ids))
    | inr other ↦ elim (Bool-cases (gets_replies entry.kind && same_name g s.gateway_id)) [
      | inr not_mine ↦ other ∙ sym not_mine
      | inl mine ↦ absurd (ground (arith, find_mine g mine, e, other))
    ]
  ]

  pushed-Sees :
      (o : Output) (j : ℕ) (item : FeedItem)
      → shown id s.gateway_id o entry ≡ (if id == j then item ∷ [] else [])
      → after id o entry ≡ entry
      → lookup id (push_one j item p).subscribers ≡ some later
      → Sees id o entry s (push_one j item p) later
  pushed-Sees o j item items same there =
      let (still, kept) = push_one-Stays j id item p s later found running there in
      (ground (arith, still, known, same), kept ∙ ap (λ x. some (add_items x s)) (sym items))

  ignored-Sees :
      (o : Output) (q : Publisher)
      → shown id s.gateway_id o entry ≡ []
      → after id o entry ≡ entry
      → q.subscribers ≡ p.subscribers
      → q.subscriptions ≡ p.subscriptions
      → lookup id q.subscribers ≡ some later
      → Sees id o entry s q later
  ignored-Sees o q nothing same subs store there =
      let still : lookup id p.subscribers ≡ some later = rw (← subs) there in
      (ground (arith, still, known, same), rw (store, nothing, add_nothing s) found)

  reply-Sees :
      (r : Reply) (q : Publisher)
      → route_reply r p ≡ some q
      → lookup id q.subscribers ≡ some later
      → Sees id (Output.reply r) entry s q later
  unfolding route_reply
  reply-Sees r q e there = elim (Option-cases (find_name r.gateway_id p.replies_by_gateway)) [
    | inl lost ↦
        let result : route_reply r p ≡ some (count_lost_reply p) = rw lost refl in
        let here : count_lost_reply p ≡ q = ground (arith, result, e) in
        let nothing : (gets_replies entry.kind && same_name r.gateway_id s.gateway_id) ≡ false =
          elim (Bool-cases (gets_replies entry.kind && same_name r.gateway_id s.gateway_id)) [
            | inr not_mine ↦ not_mine
            | inl mine ↦ absurd (ground (arith, find_mine r.gateway_id mine, lost))
          ] in
        ignored-Sees (Output.reply r) q (rw nothing refl) refl (rw (← here) refl) (rw (← here) refl)
          there
    | inr (j, to) ↦
        let (x, has, kind, u, there_too, name) = c.named SubscriberKind.replies r.gateway_id j to in
        let present : is_some (lookup j p.subscribers) ≡ true = rw has refl in
        let result : route_reply r p ≡ some (push_one j (FeedItem.reply r) p) =
          rw (to, present) refl in
        let here : push_one j (FeedItem.reply r) p ≡ q = ground (arith, result, e) in
        subst (λ x. Sees id (Output.reply r) entry s x later) here
          (pushed-Sees (Output.reply r) j (FeedItem.reply r) (rw (names_me r.gateway_id j to) refl)
            refl (rw here there))
  ]

  -- A snapshot for another subscriber, or one that this one does not wait for.
  snapshot_aside :
      (r : SnapshotReady)
      → ((id == r.subscriber) ≡ false) ⊎ (waits (lookup r.symbol entry.live) ≡ false)
      → (shown id s.gateway_id (Output.snapshot_ready r) entry ≡ [])
        × (after id (Output.snapshot_ready r) entry ≡ entry)
  snapshot_aside r (inl other) = rw other (refl, refl)
  snapshot_aside r (inr calm) = elim (Bool-cases (id == r.subscriber)) [
    | inl same ↦
        rw (same, calm, go_live_calm r.symbol (lookup r.symbol entry.live) entry calm) (refl, refl)
    | inr other ↦ rw other (refl, refl)
  ]

  after_mine :
      (r : SnapshotReady) (st : SymbolState)
      → (id == r.subscriber) ≡ true
      → lookup r.symbol entry.live ≡ some st
      → st.live ≡ false
      → after id (Output.snapshot_ready r) entry ≡ make_live r.symbol st entry
  after_mine r st same mine waiting = ground (arith, same, mine, waiting)

  shown_mine :
      (r : SnapshotReady) (st : SymbolState)
      → (id == r.subscriber) ≡ true
      → lookup r.symbol entry.live ≡ some st
      → st.live ≡ false
      → (if id == r.subscriber then FeedItem.snapshot_ready r ∷ [] else [])
        ≡ shown id s.gateway_id (Output.snapshot_ready r) entry
  shown_mine r st same mine waiting = ground (arith, same, mine, waiting)

  unmoved-Sees :
      (r : SnapshotReady)
      → ((id == r.subscriber) ≡ false) ⊎ (waits (lookup r.symbol entry.live) ≡ false)
      → route_snapshot r p ≡ p
      → lookup id (route_snapshot r p).subscribers ≡ some later
      → Sees id (Output.snapshot_ready r) entry s (route_snapshot r p) later
  unmoved-Sees r why result there =
      let (nothing, same) = snapshot_aside r why in
      subst (λ x. Sees id (Output.snapshot_ready r) entry s x later) (sym result)
        (ignored-Sees (Output.snapshot_ready r) p nothing same refl refl (rw (← result) there))

  -- The subscriber that the snapshot is for, where it is registered.
  is_mine :
      (r : SnapshotReady) (x : Subscriber)
      → lookup r.subscriber p.subscribers ≡ some x
      → ((id == r.subscriber) ≡ false) ⊎ (((id == r.subscriber) ≡ true) × (x ≡ entry))
  is_mine r x has = elim (Bool-cases (id == r.subscriber)) [
    | inr other ↦ inl other
    | inl same ↦
        let ids : r.subscriber ≡ id = sym ((==_iff id r.subscriber).0 same) in
        let mine : lookup id p.subscribers ≡ some x = rw (← ids) has in
        inr (same, ground (arith, mine, known))
  ]

  calm_or_other :
      (r : SnapshotReady) (x : Subscriber)
      → lookup r.subscriber p.subscribers ≡ some x
      → waits (lookup r.symbol x.live) ≡ false
      → ((id == r.subscriber) ≡ false) ⊎ (waits (lookup r.symbol entry.live) ≡ false)
  calm_or_other r x has calm = elim (is_mine r x has) [
    | inl other ↦ inl other
    | inr (same, entries) ↦ inr (rw (← entries) calm)
  ]

  live-Sees :
      (r : SnapshotReady) (x : Subscriber) (st : SymbolState)
      → lookup r.subscriber p.subscribers ≡ some x
      → lookup r.symbol x.live ≡ some st
      → st.live ≡ false
      → let next = insert r.subscriber (make_live r.symbol st x) p.subscribers in
        let q =
          push_one r.subscriber (FeedItem.snapshot_ready r) (record p { subscribers = next }) in
        lookup id q.subscribers ≡ some later → Sees id (Output.snapshot_ready r) entry s q later
  live-Sees r x st has asked waiting there =
      let next = insert r.subscriber (make_live r.symbol st x) p.subscribers in
      let (still, kept) =
        push_one-Stays r.subscriber id (FeedItem.snapshot_ready r) (record p { subscribers = next })
          s later found running there in
      let stored = lookup-insert r.subscriber id (make_live r.symbol st x) p.subscribers in
      elim (is_mine r x has) [
        | inl other ↦
            let (nothing, same) = snapshot_aside r (inl other) in
            (
              ground (arith, still, stored, other, known, same),
              kept ∙ ap (λ items. some (add_items items s)) (rw other refl),
            )
        | inr (same, entries) ↦
            let mine : lookup r.symbol entry.live ≡ some st = rw (← entries) asked in
            let turned : later ≡ make_live r.symbol st entry =
              ground (arith, still, stored, same, entries) in
            (
              turned ∙ sym (after_mine r st same mine waiting),
              kept ∙ ap (λ items. some (add_items items s)) (shown_mine r st same mine waiting),
            )
      ]

  not_gone :
      (r : SnapshotReady) → lookup r.subscriber p.subscribers ≡ none → (id == r.subscriber) ≡ false
  not_gone r left = elim (Bool-cases (id == r.subscriber)) [
    | inr other ↦ other
    | inl same ↦
        let gone : lookup id p.subscribers ≡ none = rw ((==_iff id r.subscriber).0 same) left in
        absurd (ground (arith, gone, known))
  ]

  snapshot-Sees :
      (r : SnapshotReady)
      → lookup id (route_snapshot r p).subscribers ≡ some later
      → Sees id (Output.snapshot_ready r) entry s (route_snapshot r p) later
  unfolding route_snapshot
  snapshot-Sees r there = elim (Option-cases (lookup r.subscriber p.subscribers)) [
    | inl left ↦ unmoved-Sees r (inl (not_gone r left)) (rw left refl) there
    | inr (x, has) ↦ elim (Option-cases (lookup r.symbol x.live)) [
      | inl unasked ↦
          unmoved-Sees r (calm_or_other r x has (rw unasked refl)) (rw (has, unasked) refl) there
      | inr (st, asked) ↦ elim (Bool-cases st.live) [
        | inl already ↦
            unmoved-Sees r (calm_or_other r x has (rw (asked, already) refl))
              (rw (has, asked, already) refl) there
        | inr waiting ↦
            let next = insert r.subscriber (make_live r.symbol st x) p.subscribers in
            let result : route_snapshot r p
                ≡ push_one r.subscriber (FeedItem.snapshot_ready r)
                    (record p { subscribers = next }) =
              rw (has, asked, waiting) refl in
            subst (λ y. Sees id (Output.snapshot_ready r) entry s y later) (sym result)
              (live-Sees r x st has asked waiting (rw (← result) there))
      ]
    ]
  ]

  -- One output, for one subscriber.
  pub handle-Sees :
      (o : Output) (q : Publisher)
      → handle o p ≡ some q
      → lookup id q.subscribers ≡ some later
      → Sees id o entry s q later
  unfolding handle
  handle-Sees (Output.market_event e) q h there =
      let here : route_event e p ≡ q = ground (arith, h) in
      subst (λ x. Sees id (Output.market_event e) entry s x later) here
        (event-Sees e (rw here there))
  handle-Sees (Output.reply r) q h there = reply-Sees r q h there
  handle-Sees (Output.snapshot_ready r) q h there =
      let here : route_snapshot r p ≡ q = ground (arith, h) in
      subst (λ x. Sees id (Output.snapshot_ready r) entry s x later) here
        (snapshot-Sees r (rw here there))
  handle-Sees Output.outbox_closed q h there =
      let here : close p ≡ q = ground (arith, h) in
      let gone : lookup id (close p).subscribers ≡ some later =
        subst (λ x. lookup id x.subscribers ≡ some later) (sym here) there in
      absurd (closed_empty p id later gone)
