-- ===== src/Server/Feeds/Private.antt =====
-- What the two kinds of streams can hold (server/src/publisher.cpp, server/src/engine_feed_server.cpp).
pub mod Opened
use Prim.Native.String.{String}
use order_book_engine.Prelude.{
  ℕ, ◌+◌, ◌<◌, true, false, ◌&&◌, Option, none, some, List, [], ◌∷◌, ◌++◌, ◌≡◌, refl, sym, subst,
  ◌∙◌, arith, if_both, lookup, ◌==◌, same_name, All, All-append,
}
use order_book_engine.Book.State.{word}
use order_book_engine.Server.Commands.{Output}
use order_book_engine.Server.Subscription.{FeedItem, Subscription}
use order_book_engine.Server.Publisher.{SubscriberKind, SymbolState, Subscriber, Publisher, shows}
use order_book_engine.Server.Publisher.Consistent.{IsConsistent}
use order_book_engine.Server.Publisher.Views.{view, shown, after, waits, go_live, gets_replies}
use order_book_engine.Server.Publisher.Views.Sessions.{Action, outputs_of, opens_in, act_all}
use order_book_engine.Server.Publisher.Views.Observing.{act_all-view}

-- No reply on a market stream; on a stream of replies, only replies to its gateway.
abbrev pub Suits : SubscriberKind → String → FeedItem → Type 0
Suits SubscriberKind.market g (FeedItem.reply r) = true ≡ false
Suits SubscriberKind.market g (FeedItem.market_event e) = Unit
Suits SubscriberKind.market g (FeedItem.snapshot_ready r) = Unit
Suits SubscriberKind.replies g (FeedItem.reply r) = same_name r.gateway_id g ≡ true
Suits SubscriberKind.replies g (FeedItem.market_event e) = true ≡ false
Suits SubscriberKind.replies g (FeedItem.snapshot_ready r) = true ≡ false

-- A subscriber of replies has no symbols.
abbrev pub IsPlain : Subscriber → Type 0
IsPlain entry = entry.kind ≡ SubscriberKind.replies → entry.live ≡ []

abbrev pub AllSuit : SubscriberKind → String → List FeedItem → Type 0
AllSuit kind g items = All (λ item. Suits kind g item) items

no_symbol : (symbol : ℕ) (entry : Subscriber) → entry.live ≡ [] → lookup symbol entry.live ≡ none
unfolding lookup
no_symbol symbol entry e = rw e refl

shown-AllSuit :
    (id : ℕ) (g : String) (o : Output) (kind : SubscriberKind) (entry : Subscriber)
    → entry.kind ≡ kind
    → IsPlain entry
    → AllSuit kind g (shown id g o entry)
unfolding lookup
shown-AllSuit id g (Output.market_event e) SubscriberKind.market entry k plain =
    if_both (AllSuit SubscriberKind.market g)
      (shows e.event.sequence_number (lookup e.symbol entry.live)) _ _ (λ seen. (tt, tt))
      (λ hidden. tt)
shown-AllSuit id g (Output.market_event e) SubscriberKind.replies entry k plain = rw (plain k) tt
shown-AllSuit id g (Output.reply r) SubscriberKind.market entry k plain = rw k tt
shown-AllSuit id g (Output.reply r) SubscriberKind.replies entry k plain =
    if_both (AllSuit SubscriberKind.replies g) (gets_replies entry.kind && same_name r.gateway_id g)
      _ _ (λ mine. (ground (arith, mine), tt)) (λ other. tt)
shown-AllSuit id g (Output.snapshot_ready r) SubscriberKind.market entry k plain =
    if_both (AllSuit SubscriberKind.market g)
      (id == r.subscriber && waits (lookup r.symbol entry.live)) _ _ (λ seen. (tt, tt))
      (λ hidden. tt)
shown-AllSuit id g (Output.snapshot_ready r) SubscriberKind.replies entry k plain =
    if_both (AllSuit SubscriberKind.replies g)
      (id == r.subscriber && waits (lookup r.symbol entry.live)) _ _
      (λ seen. absurd (ground (arith, seen, no_symbol r.symbol entry (plain k)))) (λ hidden. tt)
shown-AllSuit id g Output.outbox_closed kind entry k plain = tt

go_live-kind :
    (symbol : ℕ) (o : Option SymbolState) (entry : Subscriber)
    → (go_live symbol o entry).kind ≡ entry.kind
go_live-kind symbol none entry = refl
go_live-kind symbol (some st) entry =
    if_both (λ (x : Subscriber). x.kind ≡ entry.kind) st.live _ _ (λ already. refl)
      (λ waiting. refl)

after-kind : (id : ℕ) (o : Output) (entry : Subscriber) → (after id o entry).kind ≡ entry.kind
after-kind id (Output.snapshot_ready r) entry =
    if_both (λ (x : Subscriber). x.kind ≡ entry.kind) (id == r.subscriber) _ _
      (λ mine. go_live-kind r.symbol (lookup r.symbol entry.live) entry) (λ other. refl)
after-kind id (Output.market_event e) entry = refl
after-kind id (Output.reply r) entry = refl
after-kind id Output.outbox_closed entry = refl

after-IsPlain :
    (id : ℕ) (o : Output) (entry : Subscriber) → IsPlain entry → IsPlain (after id o entry)
after-IsPlain id (Output.snapshot_ready r) entry plain = λ k.
    let e = plain (sym (after-kind id (Output.snapshot_ready r) entry) ∙ k) in
    if_both (λ (x : Subscriber). x.live ≡ []) (id == r.subscriber) _ _
      (λ mine. rw (no_symbol r.symbol entry e) e) (λ other. e)
after-IsPlain id (Output.market_event e) entry plain = plain
after-IsPlain id (Output.reply r) entry plain = plain
after-IsPlain id Output.outbox_closed entry plain = plain

view-AllSuit :
    (id : ℕ) (g : String) (outs : List Output) (kind : SubscriberKind) (entry : Subscriber)
    → entry.kind ≡ kind
    → IsPlain entry
    → AllSuit kind g (view id g outs entry)
view-AllSuit id g [] kind entry k plain = tt
view-AllSuit id g (o ∷ outs) kind entry k plain =
    All-append (λ item. Suits kind g item) (shown id g o entry) (view id g outs (after id o entry))
      (shown-AllSuit id g o kind entry k plain)
      (view-AllSuit id g outs kind (after id o entry) (after-kind id o entry ∙ k)
        (after-IsPlain id o entry plain))

-- What a stream of a registered subscriber reads, if its queue suits it at first.
pub act_all-AllSuit :
    (acts : List Action) (id : ℕ) (p q : Publisher) (entry later : Subscriber) (s : Subscription)
    (taken : List FeedItem)
    → IsConsistent p
    → lookup id p.subscribers ≡ some entry
    → lookup id p.subscriptions ≡ some s
    → p.next_id + opens_in acts < word
    → IsPlain entry
    → AllSuit entry.kind s.gateway_id s.items
    → act_all id acts p ≡ some (q, taken)
    → lookup id q.subscribers ≡ some later
    → (t : Subscription) × (lookup id q.subscriptions ≡ some t)
      × AllSuit entry.kind s.gateway_id (taken ++ t.items)
act_all-AllSuit acts id p q entry later s taken c known found left plain before done there =
    let (t, has, name, all) =
      act_all-view acts id p q entry later s taken c known found left done there in
    let shown = view id s.gateway_id (outputs_of acts) entry in
    (
      t,
      has,
      subst (AllSuit entry.kind s.gateway_id) (sym all) (
          All-append (λ item. Suits entry.kind s.gateway_id item) s.items shown before
            (view-AllSuit id s.gateway_id (outputs_of acts) entry.kind entry refl plain)),
    )
