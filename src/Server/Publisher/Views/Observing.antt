-- ===== src/Server/Publisher/Views/Observing.antt =====
-- Every subscriber reads its view (server/src/publisher.cpp).
use Prim.Native.String.{String}
use order_book_engine.Prelude.{
  ℕ, ◌+◌, ◌<◌, Option, none, some, List, [], ◌∷◌, ◌++◌, ◌≡◌, refl, sym, ap, subst, ◌∙◌, arith, inl,
  inr, lookup, append_assoc, append-nil,
}
use order_book_engine.Server.Subscription.{FeedItem, Subscription}
use order_book_engine.Server.Publisher.{Subscriber, Publisher}
use order_book_engine.Server.Publisher.Consistent.{IsConsistent}
use order_book_engine.Server.Publisher.Views.{view}
use order_book_engine.Server.Publisher.Views.Sessions.{
  Action, outputs_of, opens_in, grows, with_items, and_go_on, act, act_all,
}
use order_book_engine.Book.State.{word}
use order_book_engine.Server.Publisher.Views.Absent.{IsAbsentAfter, act_all-IsAbsentAfter}
use order_book_engine.Server.Publisher.Views.Following.{
  Observes, after_action, shown_in, Next, act-Next,
}

view_action :
    (id : ℕ) (g : String) (a : Action) (acts : List Action) (entry : Subscriber)
    → view id g (outputs_of (a ∷ acts)) entry
      ≡ shown_in id g a entry ++ view id g (outputs_of acts) (after_action id a entry)
view_action id g (Action.handles o) acts entry = refl
view_action id g (Action.reads j) acts entry = refl
view_action id g (Action.leaves j) acts entry = refl
view_action id g (Action.opens x) acts entry = refl

absent-Observes :
    (id : ℕ) (acts : List Action) (entry : Subscriber) (s : Subscription) (items : List FeedItem)
    (o : Option (Publisher × List FeedItem))
    → IsAbsentAfter id o
    → Observes id (outputs_of acts) entry s (with_items items o)
absent-Observes id acts entry s items none h = tt
absent-Observes id acts entry s items (some (q, more)) h =
    λ later there. absurd (ground (arith, h, there))

join_items :
    (items more old after new shown rest : List FeedItem)
    → items ++ old ≡ new ++ shown
    → more ++ after ≡ old ++ rest
    → (items ++ more) ++ after ≡ new ++ (shown ++ rest)
join_items items more old after new shown rest e f =
    append_assoc items more after
    ∙ ap (λ xs. items ++ xs) f
    ∙ sym (append_assoc items old rest)
    ∙ ap (λ xs. xs ++ rest) e
    ∙ append_assoc new shown rest

later-Observes :
    (id : ℕ) (a : Action) (acts : List Action) (entry : Subscriber) (s t : Subscription)
    (items : List FeedItem) (o : Option (Publisher × List FeedItem))
    → t.gateway_id ≡ s.gateway_id
    → items ++ t.items ≡ s.items ++ shown_in id s.gateway_id a entry
    → Observes id (outputs_of acts) (after_action id a entry) t o
    → Observes id (outputs_of (a ∷ acts)) entry s (with_items items o)
later-Observes id a acts entry s t items none g e h = tt
later-Observes id a acts entry s t items (some (q, more)) g e h = λ later there.
    let (u, has, name, f) = h later there in
    let rest = view id s.gateway_id (outputs_of acts) (after_action id a entry) in
    let f_here : more ++ u.items ≡ t.items ++ rest = rw (← g) f in
    (
      u,
      has,
      name ∙ g,
      join_items items more t.items u.items s.items (shown_in id s.gateway_id a entry) rest e f_here
          ∙ ap (λ xs. s.items ++ xs) (sym (view_action id s.gateway_id a acts entry)),
    )

Next-Observes :
    (id : ℕ) (a : Action) (acts : List Action) (entry : Subscriber) (s : Subscription) (bound : ℕ)
    (o : Option (Publisher × List FeedItem))
    → Next id a entry s bound o
    → bound + opens_in acts < word
    → ((q : Publisher) (x : Subscriber) (t : Subscription)
        → IsConsistent q
        → lookup id q.subscribers ≡ some x
        → lookup id q.subscriptions ≡ some t
        → q.next_id + opens_in acts < word
        → Observes id (outputs_of acts) x t (act_all id acts q))
    → Observes id (outputs_of (a ∷ acts)) entry s (and_go_on o (act_all id acts))
Next-Observes id a acts entry s bound none h left next = tt
Next-Observes id a acts entry s bound (some (q, items)) (c, few, inl gone) left next =
    absent-Observes id (a ∷ acts) entry s items (act_all id acts q)
      (act_all-IsAbsentAfter id acts q gone (omega (arith, left, few)))
Next-Observes id a acts entry s bound (some (q, items)) (c, few, inr (known, t, found, g, e)) left
      next =
    later-Observes id a acts entry s t items (act_all id acts q) g e
      (next q (after_action id a entry) t c known found (omega (arith, left, few)))

act_all-Observes :
    (acts : List Action) (id : ℕ) (p : Publisher) (entry : Subscriber) (s : Subscription)
    → IsConsistent p
    → lookup id p.subscribers ≡ some entry
    → lookup id p.subscriptions ≡ some s
    → p.next_id + opens_in acts < word
    → Observes id (outputs_of acts) entry s (act_all id acts p)
unfolding act_all
act_all-Observes [] id p entry s c known found left =
    λ later there. (s, found, refl, sym (append-nil s.items))
act_all-Observes (a ∷ acts) id p entry s c known found left =
    Next-Observes id a acts entry s (p.next_id + grows a) (act id a p)
      (act-Next id entry s a p c known found (omega (arith, left))) (omega (arith, left))
      (λ q x t d here has few. act_all-Observes acts id q x t d here has few)

-- On a publisher whose maps agree, whatever outputs it handles and whichever streams read, leave or are
-- opened in between, while ids do not overflow, a subscriber that is still registered at the end has read, or has still in its queue, what
-- was in its queue and then exactly its view of the outputs: the events of its live symbols from the
-- number on that it starts with, the snapshots that it waits for, each of which makes its symbol live,
-- and the replies to its gateway if it is a subscriber of replies.
pub act_all-view :
    (acts : List Action) (id : ℕ) (p q : Publisher) (entry later : Subscriber) (s : Subscription)
    (taken : List FeedItem)
    → IsConsistent p
    → lookup id p.subscribers ≡ some entry
    → lookup id p.subscriptions ≡ some s
    → p.next_id + opens_in acts < word
    → act_all id acts p ≡ some (q, taken)
    → lookup id q.subscribers ≡ some later
    → (t : Subscription) × (lookup id q.subscriptions ≡ some t)
      × (t.gateway_id ≡ s.gateway_id)
      × (taken ++ t.items ≡ s.items ++ view id s.gateway_id (outputs_of acts) entry)
act_all-view acts id p q entry later s taken c known found left done there =
    let h = act_all-Observes acts id p entry s c known found left in
    subst (λ o. Observes id (outputs_of acts) entry s o) done h later there
