-- ===== src/Server/Publisher/Views/Following.antt =====
-- What one step leaves for a subscriber (server/src/publisher.cpp).
use Prim.Native.String.{String}
use order_book_engine.Prelude.{
  ℕ, ◌+◌, ◌<◌, ◌≤◌, false, Option, none, some, List, [], ◌∷◌, ◌++◌, ◌≡◌, refl, sym, ◌∙◌, arith, inl,
  inr, ◌⊎◌, Bool-cases, Option-cases, ◌==◌, ==_iff, lookup, lookup-insert, append-nil,
}
use order_book_engine.Server.Commands.{Output}
use order_book_engine.Server.Subscription.{FeedItem, EndReason, Subscription, next_for, pop_front}
use order_book_engine.Server.Publisher.{Subscriber, Publisher, handle, read, unsubscribe}
use order_book_engine.Server.Publisher.Consistent.{IsConsistent}
use order_book_engine.Server.Publisher.Consistent.Handling.{handle-IsConsistent, read-IsConsistent}
use order_book_engine.Server.Publisher.Consistent.Dropping.{drop-IsConsistent}
use order_book_engine.Server.Publisher.Replaying.{add_items}
use order_book_engine.Server.Publisher.Views.{shown, after, view}
use order_book_engine.Server.Publisher.Views.Keeping.{drop-Stays}
use order_book_engine.Server.Publisher.Views.Sharing.{handle-Sees}
use order_book_engine.Server.Publisher.Joining.{Request, joined, open_stream}
use order_book_engine.Server.Publisher.Joining.Others.{open_stream-JoinsIn, JoinsIn}
use order_book_engine.Server.Publisher.Recording.Handling.{
  handle-SameRecords, noted-next_id, drop-SameRecords, read-SameRecords,
}
use order_book_engine.Book.State.{word}
use order_book_engine.Server.Publisher.Views.Sessions.{Action, grows, items_of, without_items, act}
use order_book_engine.Server.Publisher.Views.Absent.{HasLeft}

-- What one action leaves for the subscriber `id`, if it is still registered.
abbrev pub Observes :
    ℕ → List Output → Subscriber → Subscription → Option (Publisher × List FeedItem) → Type 0
Observes id outs entry s none = Unit
Observes id outs entry s (some (q, taken)) =
    (later : Subscriber)
    → lookup id q.subscribers ≡ some later
    → (t : Subscription) × (lookup id q.subscriptions ≡ some t)
      × (t.gateway_id ≡ s.gateway_id)
      × (taken ++ t.items ≡ s.items ++ view id s.gateway_id outs entry)

abbrev pub after_action : ℕ → Action → Subscriber → Subscriber
after_action id (Action.handles o) entry = after id o entry
after_action id (Action.reads j) entry = entry
after_action id (Action.leaves j) entry = entry
after_action id (Action.opens x) entry = entry

abbrev pub shown_in : ℕ → String → Action → Subscriber → List FeedItem
shown_in id g (Action.handles o) entry = shown id g o entry
shown_in id g (Action.reads j) entry = []
shown_in id g (Action.leaves j) entry = []
shown_in id g (Action.opens x) entry = []

abbrev pub Follows :
    ℕ → List FeedItem → Subscriber → Subscription → List FeedItem → Publisher → Type 0
Follows id items entry s taken q =
    (lookup id q.subscribers ≡ some entry)
    × (t : Subscription) × (lookup id q.subscriptions ≡ some t)
    × (t.gateway_id ≡ s.gateway_id)
    × (taken ++ t.items ≡ s.items ++ items)

abbrev pub Next :
    ℕ → Action → Subscriber → Subscription → ℕ → Option (Publisher × List FeedItem) → Type 0
Next id a entry s bound none = Unit
Next id a entry s bound (some (q, taken)) =
    IsConsistent q
    × (q.next_id ≤ bound)
    × (HasLeft id q
        ⊎ Follows id (shown_in id s.gateway_id a entry) (after_action id a entry) s taken q)

popped :
    (items : List FeedItem) (s : Subscription)
    → s.items ≡ items
    → let (item, t) = pop_front items s in items_of item ++ t.items ≡ s.items
popped [] s e = refl
popped (x ∷ xs) s e = sym e

pop_front-gateway :
    (items : List FeedItem) (s : Subscription) → (pop_front items s).1.gateway_id ≡ s.gateway_id
pop_front-gateway [] s = refl
pop_front-gateway (x ∷ xs) s = refl

module _ (id : ℕ) (entry : Subscriber) (s : Subscription) (p : Publisher) (c : IsConsistent p)
    (known : lookup id p.subscribers ≡ some entry)
    (found : lookup id p.subscriptions ≡ some s) where
  low : id < p.next_id
  low = c.fresh id entry known

  handles-Next :
      (o : Output) → Next id (Action.handles o) entry s (p.next_id + 0) (without_items (handle o p))
  handles-Next o =
      let (q, done, d) = handle-IsConsistent o p c in
      let same : q.next_id ≡ p.next_id = (handle-SameRecords o p q done).1 ∙ noted-next_id o p in
      rw done (
        d,
        omega (arith, same),
        elim (Option-cases (lookup id q.subscribers)) [
          | inl gone ↦ inl (gone, omega (arith, same, low))
          | inr (later, there) ↦
              let (kept, has) = handle-Sees id entry s p later c known found o q done there in
              inr (rw (← kept) there, add_items (shown id s.gateway_id o entry) s, has, refl, refl)
        ],
      )

  reads-Next :
      (j : ℕ) → Next id (Action.reads j) entry s (p.next_id + 0) (act id (Action.reads j) p)
  unfolding act read
  reads-Next j = (
    read-IsConsistent j p c,
    omega (arith, (read-SameRecords j p).1),
    inr (elim (Bool-cases (id == j)) [
      | inl same ↦
          let ids : j ≡ id = sym ((==_iff id j).0 same) in
          let mine : lookup j p.subscriptions ≡ some s = rw ids found in
          let t = (next_for s).1 in
          rw (same, mine)
            (
              known,
              t,
              lookup-insert j id t p.subscriptions ∙ rw same refl,
              pop_front-gateway s.items s,
              popped s.items s refl ∙ sym (append-nil s.items),
            )
      | inr other ↦ elim (Option-cases (lookup j p.subscriptions)) [
        | inl e ↦ rw (other, e) (known, s, found, refl, sym (append-nil s.items))
        | inr (u, e) ↦
            rw (other, e)
              (
                known,
                s,
                lookup-insert j id (next_for u).1 p.subscriptions ∙ rw other found,
                refl,
                sym (append-nil s.items),
              )
      ]
    ]),
  )

  leaves-Next :
      (j : ℕ) → Next id (Action.leaves j) entry s (p.next_id + 0) (act id (Action.leaves j) p)
  unfolding act
  leaves-Next j =
      let same = (drop-SameRecords j EndReason.unsubscribed p).1 in
      (
        drop-IsConsistent j EndReason.unsubscribed p c,
        omega (arith, same),
        elim (Option-cases (lookup id (unsubscribe j p).subscribers)) [
          | inl gone ↦ inl (gone, omega (arith, same, low))
          | inr (later, there) ↦
              let (away, (still, kept)) =
                drop-Stays j id EndReason.unsubscribed p s later found there in
              let entries : later ≡ entry = ground (arith, still, known) in
              inr (rw (← entries) there, s, kept, refl, sym (append-nil s.items))
        ],
      )

  joined-Next :
      (x : Request) (o : Option Publisher)
      → JoinsIn p o
      → Next id (Action.opens x) entry s (p.next_id + 1) (without_items o)
  joined-Next x none h = tt
  joined-Next x (some q) h =
      let away : (id == p.next_id) ≡ false = ground (arith, low) in
      (
        h.consistent,
        elim h.number [ inl same ↦ omega (arith, same) | inr next ↦ omega (arith, next) ],
        inr (
          h.subscribers id away ∙ known,
          s,
          h.subscriptions id away ∙ found,
          refl,
          sym (append-nil s.items),
        ),
      )

pub act-Next :
    (id : ℕ) (entry : Subscriber) (s : Subscription) (a : Action) (p : Publisher)
    → IsConsistent p
    → lookup id p.subscribers ≡ some entry
    → lookup id p.subscriptions ≡ some s
    → p.next_id + grows a < word
    → Next id a entry s (p.next_id + grows a) (act id a p)
unfolding act
act-Next id entry s (Action.handles o) p c known found left =
    handles-Next id entry s p c known found o
act-Next id entry s (Action.reads j) p c known found left = reads-Next id entry s p c known found j
act-Next id entry s (Action.leaves j) p c known found left =
    leaves-Next id entry s p c known found j
act-Next id entry s (Action.opens x) p c known found left =
    joined-Next id entry s p c known found x (joined (open_stream x p))
      (open_stream-JoinsIn x p c left)
