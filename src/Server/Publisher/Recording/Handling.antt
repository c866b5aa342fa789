-- ===== src/Server/Publisher/Recording/Handling.antt =====
-- What the publisher's steps leave of the history (server/src/publisher.cpp, `route` and `drop`).
use order_book_engine.Prelude.{
  ℕ, ◌+◌, true, false, none, some, List, [], ◌∷◌, ◌++◌, ◌≡◌, refl, sym, subst, ap, ◌∙◌, inl, inr,
  Bool-cases, Option, Option-cases, if_both, if◌then◌else◌, lookup, insert, lookup-insert, ◌==◌,
  ==_iff, is_some, find_name,
}
use order_book_engine.Server.Commands.{MarketEvent, Reply, SnapshotReady, Output}
use order_book_engine.Server.Subscription.{FeedItem, EndReason}
use order_book_engine.Server.Publisher.{
  Publisher, history_of, remember, trim, drop, drop_all, drop_slow, count_slow, push_one, offer,
  route_event, show_event, count_event, route_reply, route_snapshot, make_live, close, handle, read,
}
use order_book_engine.Server.Publisher.Subscribing.{last_of, or_zero}
use order_book_engine.Server.Publisher.Recording.{
  IsRecorded, Window, IsFiled, AllOf-append, AllOf-trim, trim-Window,
}

-- `q` keeps the events and numbers of `p`, and its next id.
abbrev pub SameHistory : Publisher → Publisher → Type 0
SameHistory p q = (q.history ≡ p.history) × (q.last_seq ≡ p.last_seq) × (q.options ≡ p.options)

abbrev pub SameRecords : Publisher → Publisher → Type 0
SameRecords p q = SameHistory p q × (q.next_id ≡ p.next_id)

SameRecords-trans : (p q r : Publisher) → SameRecords p q → SameRecords q r → SameRecords p r
SameRecords-trans p q r ((a, b, c), d) ((x, y, z), w) = ((x ∙ a, y ∙ b, z ∙ c), w ∙ d)

abbrev SameIn : Publisher → Option Publisher → Type 0
SameIn p none = Unit
SameIn p (some q) = SameRecords p q

pub drop-SameRecords :
    (id : ℕ) (reason : EndReason) (p : Publisher) → SameRecords p (drop id reason p)
unfolding drop
drop-SameRecords id reason p = elim (Option-cases (lookup id p.subscribers)) [
  | inl e ↦ rw e ((refl, refl, refl), refl)
  | inr (entry, e) ↦ elim (Option-cases (lookup id p.subscriptions)) [
    | inl e2 ↦ rw (e, e2) ((refl, refl, refl), refl)
    | inr (s, e2) ↦ rw (e, e2) ((refl, refl, refl), refl)
  ]
]

drop_all-SameRecords : (ids : List ℕ) (p : Publisher) → SameRecords p (drop_all ids p)
unfolding drop_all
drop_all-SameRecords [] p = ((refl, refl, refl), refl)
drop_all-SameRecords (id ∷ ids) p =
    SameRecords-trans p (drop_slow id p) (drop_all ids (drop_slow id p))
      (drop-SameRecords id EndReason.slow_consumer (count_slow p))
      (drop_all-SameRecords ids (drop_slow id p))

push_one-SameRecords :
    (id : ℕ) (item : FeedItem) (p : Publisher) → SameRecords p (push_one id item p)
unfolding push_one
push_one-SameRecords id item p =
    let q = record p { subscriptions = (offer id item p.subscriptions).1 } in
    if_both (SameRecords p) (offer id item p.subscriptions).0 _ _ (λ ok. ((refl, refl, refl), refl))
      (λ full. drop-SameRecords id EndReason.slow_consumer (count_slow q))

route_reply-SameIn : (r : Reply) (p : Publisher) → SameIn p (route_reply r p)
unfolding route_reply
route_reply-SameIn r p = elim (Option-cases (find_name r.gateway_id p.replies_by_gateway)) [
  | inl lost ↦ rw lost ((refl, refl, refl), refl)
  | inr (j, to) ↦ rw to (
      if_both (SameIn p) (is_some (lookup j p.subscribers)) _ _
        (λ there. push_one-SameRecords j (FeedItem.reply r) p) (λ gone. tt))
]

route_snapshot-SameRecords :
    (r : SnapshotReady) (p : Publisher) → SameRecords p (route_snapshot r p)
unfolding route_snapshot
route_snapshot-SameRecords r p = elim (Option-cases (lookup r.subscriber p.subscribers)) [
  | inl left ↦ rw left ((refl, refl, refl), refl)
  | inr (x, has) ↦ elim (Option-cases (lookup r.symbol x.live)) [
    | inl unasked ↦ rw (has, unasked) ((refl, refl, refl), refl)
    | inr (st, asked) ↦
        rw (has, asked)
          (if_both (SameRecords p) st.live _ _ (λ already. ((refl, refl, refl), refl))
            (λ waiting. push_one-SameRecords r.subscriber (FeedItem.snapshot_ready r) (record p {
              subscribers = insert r.subscriber (make_live r.symbol st x) p.subscribers;
            })))
  ]
]

pub read-SameRecords : (j : ℕ) (p : Publisher) → SameRecords p (read j p).1
unfolding read
read-SameRecords j p = elim (Option-cases (lookup j p.subscriptions)) [
  | inl e ↦ rw e ((refl, refl, refl), refl)
  | inr (s, e) ↦ rw e ((refl, refl, refl), refl)
]

-- The records depend on the histories, the numbers and the options alone.
pub SameHistory-IsRecorded :
    (s next : ℕ) (p q : Publisher) → SameHistory p q → IsRecorded s next p → IsRecorded s next q
SameHistory-IsRecorded s next p q (a, b, c) h = rw (a, b, c) h

pub SameHistory-IsFiled : (p q : Publisher) → SameHistory p q → IsFiled p → IsFiled q
SameHistory-IsFiled p q (a, b, c) h s = rw a (h s)

-- The history of a symbol, once an event is remembered.
pub history-remember :
    (s : ℕ) (e : MarketEvent) (p : Publisher)
    → history_of s (remember e p) ≡ (
        if s == e.symbol
        then trim p.options.replay_window (history_of e.symbol p ++ e ∷ [])
        else history_of s p)
unfolding remember
history-remember s e p =
    let kept = trim p.options.replay_window (history_of e.symbol p ++ e ∷ []) in
    elim (Bool-cases (s == e.symbol)) [
      | inl mine ↦ rw (lookup-insert e.symbol s kept p.history, mine) refl
      | inr other ↦ rw (lookup-insert e.symbol s kept p.history, other) refl
    ]

pub remember-IsFiled : (e : MarketEvent) (p : Publisher) → IsFiled p → IsFiled (remember e p)
remember-IsFiled e p h s = elim (Bool-cases (s == e.symbol)) [
  | inr other ↦ rw (history-remember s e p, other) (h s)
  | inl mine ↦
      let kept = history_of e.symbol p in
      rw (history-remember s e p, mine)
        (AllOf-trim s p.options.replay_window (kept ++ e ∷ [])
          (AllOf-append s kept e mine (rw (← (==_iff s e.symbol).0 mine) (h s))))
]

pub remember-other :
    (s next : ℕ) (e : MarketEvent) (p : Publisher)
    → (s == e.symbol) ≡ false
    → IsRecorded s next p
    → IsRecorded s next (remember e p)
unfolding remember
remember-other s next e p other h =
    rw
      (
        lookup-insert e.symbol s (trim p.options.replay_window (history_of e.symbol p ++ e ∷ []))
            p.history,
        lookup-insert e.symbol s e.event.sequence_number p.last_seq,
        other,
      )
      h

pub remember-mine :
    (s next : ℕ) (e : MarketEvent) (p : Publisher)
    → (s == e.symbol) ≡ true
    → e.event.sequence_number ≡ next
    → IsRecorded s next p
    → IsRecorded s (next + 1) (remember e p)
unfolding remember
remember-mine s next e p mine number (last, small, n, k, whole) =
    let window = p.options.replay_window in
    let symbols : e.symbol ≡ s = sym ((==_iff s e.symbol).0 mine) in
    let kept : history_of s (remember e p) ≡ trim window (history_of s p ++ e ∷ []) =
      history-remember s e p ∙ rw mine (ap (λ i. trim window (history_of i p ++ e ∷ [])) symbols) in
    let noted_last : last_of s (remember e p) ≡ next =
      ap (λ o. or_zero o) (lookup-insert e.symbol s e.event.sequence_number p.last_seq)
      ∙ rw mine number in
    let (a, b, c, d) =
      subst (λ es. Window s (next + 1) window es) (sym kept)
        (trim-Window s next window (history_of s p) e mine number (small, n, k, whole)) in
    (ap (λ i. i + 1) noted_last, a, b, c, d)

-- The publisher after it took note of an output.
abbrev pub noted : Output → Publisher → Publisher
unfolding remember
noted (Output.market_event e) p = remember e p
noted (Output.reply r) p = p
noted (Output.snapshot_ready r) p = p
noted Output.outbox_closed p = p

handle-SameIn : (o : Output) (p : Publisher) → SameIn (noted o p) (handle o p)
unfolding handle route_event close
handle-SameIn (Output.market_event e) p =
    let q = remember e p in
    let (store, slow) = show_event e q.subscribers q.subscriptions in
    drop_all-SameRecords slow (record (count_event q) { subscriptions = store })
handle-SameIn (Output.reply r) p = route_reply-SameIn r p
handle-SameIn (Output.snapshot_ready r) p = route_snapshot-SameRecords r p
handle-SameIn Output.outbox_closed p = ((refl, refl, refl), refl)

-- A handled output.
pub handle-SameRecords :
    (o : Output) (p q : Publisher) → handle o p ≡ some q → SameRecords (noted o p) q
handle-SameRecords o p q done = subst (SameIn (noted o p)) done (handle-SameIn o p)

pub noted-next_id : (o : Output) (p : Publisher) → (noted o p).next_id ≡ p.next_id
unfolding remember
noted-next_id (Output.market_event e) p = refl
noted-next_id (Output.reply r) p = refl
noted-next_id (Output.snapshot_ready r) p = refl
noted-next_id Output.outbox_closed p = refl
