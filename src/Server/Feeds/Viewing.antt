-- ===== src/Server/Feeds/Viewing.antt =====
-- The view of a stream of one symbol (server/src/publisher.cpp, `route`).
use Prim.Native.String.{String}
use order_book_engine.Prelude.{
  ℕ, ◌+◌, ◌%◌, ◌<◌, ◌≤◌, length, true, false, ◌&&◌, Option, none, some, List, [], ◌∷◌, ◌++◌, ◌≡◌,
  refl, sym, ap, subst, ◌∙◌, inl, inr, ◌⊎◌, arith, Bool-cases, if_both, lookup, lookup-insert, ◌==◌,
  ==_iff, same_name,
}
use order_book_engine.Book.State.{word}
use order_book_engine.Server.Commands.{Output, MarketEvent, SnapshotReady, Reply}
use order_book_engine.Server.Worker.Streams.Dating.{Stream}
use order_book_engine.Server.Subscription.{FeedItem}
use order_book_engine.Server.Publisher.{Subscriber, SymbolState, make_live, shows}
use order_book_engine.Server.Publisher.Views.{view, shown, after, waits, go_live, gets_replies}
use order_book_engine.Server.Feeds.{items_about, Numbered}

abbrev pub waiting_state : SymbolState
waiting_state = record { live = false; skip_below = 0 }

abbrev pub live_from : ℕ → SymbolState
live_from wanted = record { live = true; skip_below = wanted }

-- The numbers of the events do not come below `wanted` again.
abbrev pub StaysAbove : ℕ → ℕ → List Output → Type 0
StaysAbove wanted next outs = (wanted ≡ 0) ⊎ ((wanted ≤ next) × (next + length outs < word))

StaysAbove-skip :
    (wanted next : ℕ) (o : Output) (outs : List Output)
    → StaysAbove wanted next (o ∷ outs)
    → StaysAbove wanted next outs
StaysAbove-skip wanted next o outs h = ground arith

StaysAbove-next :
    (wanted next : ℕ) (o : Output) (outs : List Output)
    → StaysAbove wanted next (o ∷ outs)
    → StaysAbove wanted ((next + 1) % word) outs
StaysAbove-next wanted next o outs (inl zero_wanted) = inl zero_wanted
StaysAbove-next wanted next o outs (inr (le, small)) =
    inr (omega (arith, le, small), omega (arith, le, small))

pub items_about-append :
    (s : ℕ) (xs ys : List FeedItem)
    → items_about s (xs ++ ys) ≡ items_about s xs ++ items_about s ys
items_about-append s [] ys = refl
items_about-append s (FeedItem.market_event e ∷ xs) ys = ground (arith, items_about-append s xs ys)
items_about-append s (FeedItem.snapshot_ready r ∷ xs) ys =
    ground (arith, items_about-append s xs ys)
items_about-append s (FeedItem.reply r ∷ xs) ys = items_about-append s xs ys

-- An output that shows the subscriber nothing about the symbol, and leaves its state for it.
abbrev pub IsQuiet : ℕ → ℕ → String → Output → Subscriber → Type 0
IsQuiet s id g o entry =
    (items_about s (shown id g o entry) ≡ [])
    × (lookup s (after id o entry).live ≡ lookup s entry.live)

pub other_event-IsQuiet :
    (s id : ℕ) (g : String) (e : MarketEvent) (entry : Subscriber)
    → (s == e.symbol) ≡ false
    → IsQuiet s id g (Output.market_event e) entry
other_event-IsQuiet s id g e entry other = (
  if_both (λ xs. items_about s xs ≡ []) (shows e.event.sequence_number (lookup e.symbol entry.live))
      _ _ (λ seen. rw other refl) (λ hidden. refl),
  refl,
)

pub hidden_event-IsQuiet :
    (s id : ℕ) (g : String) (e : MarketEvent) (entry : Subscriber)
    → (s == e.symbol) ≡ true
    → lookup s entry.live ≡ some waiting_state
    → IsQuiet s id g (Output.market_event e) entry
hidden_event-IsQuiet s id g e entry mine waiting =
    let found : lookup e.symbol entry.live ≡ some waiting_state =
      rw (← (==_iff s e.symbol).0 mine) waiting in
    (rw found refl, refl)

pub reply-IsQuiet :
    (s id : ℕ) (g : String) (r : Reply) (entry : Subscriber) → IsQuiet s id g (Output.reply r) entry
reply-IsQuiet s id g r entry = (
  if_both (λ xs. items_about s xs ≡ []) (gets_replies entry.kind && same_name r.gateway_id g) _ _
      (λ mine. refl) (λ other. refl),
  refl,
)

go_live-other :
    (s symbol : ℕ) (o : Option SymbolState) (entry : Subscriber)
    → (s == symbol) ≡ false
    → lookup s (go_live symbol o entry).live ≡ lookup s entry.live
go_live-other s symbol none entry other = refl
go_live-other s symbol (some st) entry other =
    if_both (λ (x : Subscriber). lookup s x.live ≡ lookup s entry.live) st.live entry
      (make_live symbol st entry) (λ already. refl)
      (λ waiting. lookup-insert symbol s (record st { live = true }) entry.live ∙ rw other refl)

pub other_snapshot-IsQuiet :
    (s id : ℕ) (g : String) (r : SnapshotReady) (entry : Subscriber)
    → (s == r.symbol) ≡ false
    → IsQuiet s id g (Output.snapshot_ready r) entry
other_snapshot-IsQuiet s id g r entry other = (
  if_both (λ xs. items_about s xs ≡ []) (id == r.subscriber && waits (lookup r.symbol entry.live)) _
      _ (λ mine. rw other refl) (λ hidden. refl),
  if_both (λ (x : Subscriber). lookup s x.live ≡ lookup s entry.live) (id == r.subscriber) _ _
      (λ mine. go_live-other s r.symbol (lookup r.symbol entry.live) entry other) (λ aside. refl),
)

pub aside_snapshot-IsQuiet :
    (s id : ℕ) (g : String) (r : SnapshotReady) (entry : Subscriber)
    → (id == r.subscriber) ≡ false
    → IsQuiet s id g (Output.snapshot_ready r) entry
aside_snapshot-IsQuiet s id g r entry aside = rw aside (refl, refl)

late_snapshot-IsQuiet :
    (s id : ℕ) (g : String) (r : SnapshotReady) (entry : Subscriber) (wanted : ℕ)
    → (s == r.symbol) ≡ true
    → lookup s entry.live ≡ some (live_from wanted)
    → IsQuiet s id g (Output.snapshot_ready r) entry
late_snapshot-IsQuiet s id g r entry wanted mine live =
    let found : lookup r.symbol entry.live ≡ some (live_from wanted) =
      rw (← (==_iff s r.symbol).0 mine) live in
    elim (Bool-cases (id == r.subscriber)) [
      | inl here ↦ rw (here, found) (refl, refl)
      | inr aside ↦ aside_snapshot-IsQuiet s id g r entry aside
    ]

pub view-quiet :
    (s id : ℕ) (g : String) (o : Output) (outs : List Output) (entry : Subscriber)
    → items_about s (shown id g o entry) ≡ []
    → items_about s (view id g (o ∷ outs) entry) ≡ items_about s (view id g outs (after id o entry))
view-quiet s id g o outs entry quiet =
    items_about-append s (shown id g o entry) (view id g outs (after id o entry))
    ∙ ap (λ xs. xs ++ items_about s (view id g outs (after id o entry))) quiet

abbrev pub FromLive : ℕ → ℕ → String → List Output → Type 0
FromLive s id g outs =
    (entry : Subscriber) (wanted next end : ℕ)
    → lookup s entry.live ≡ some (live_from wanted)
    → StaysAbove wanted next outs
    → Stream s next outs end
    → Numbered next (items_about s (view id g outs entry)) end

quiet-Numbered :
    (s id : ℕ) (g : String) (o : Output) (outs : List Output) (entry : Subscriber)
    (wanted next end : ℕ)
    → FromLive s id g outs
    → IsQuiet s id g o entry
    → lookup s entry.live ≡ some (live_from wanted)
    → StaysAbove wanted next (o ∷ outs)
    → Stream s next outs end
    → Numbered next (items_about s (view id g (o ∷ outs) entry)) end
quiet-Numbered s id g o outs entry wanted next end rest (nothing, same) live above h =
    subst (λ xs. Numbered next xs end) (sym (view-quiet s id g o outs entry nothing))
      (rest (after id o entry) wanted next end (same ∙ live)
        (StaysAbove-skip wanted next o outs above) h)

event_shown :
    (s id : ℕ) (g : String) (e : MarketEvent) (outs : List Output) (entry : Subscriber) (wanted : ℕ)
    → (s == e.symbol) ≡ true
    → lookup s entry.live ≡ some (live_from wanted)
    → StaysAbove wanted e.event.sequence_number (Output.market_event e ∷ outs)
    → items_about s (view id g (Output.market_event e ∷ outs) entry)
      ≡ FeedItem.market_event e ∷ items_about s (view id g outs entry)
event_shown s id g e outs entry wanted mine live above =
    let found : lookup e.symbol entry.live ≡ some (live_from wanted) =
      rw (← (==_iff s e.symbol).0 mine) live in
    let seen : shows e.event.sequence_number (some (live_from wanted)) ≡ true = ground arith in
    rw (found, seen, mine) refl

-- A live symbol: all its events.
pub view-Numbered : (s id : ℕ) (g : String) (outs : List Output) → FromLive s id g outs
view-Numbered s id g [] entry wanted next end live above h = h
view-Numbered s id g (Output.market_event e ∷ outs) entry wanted next end live above
      (inl (other, h)) =
    quiet-Numbered s id g (Output.market_event e) outs entry wanted next end
      (view-Numbered s id g outs) (other_event-IsQuiet s id g e entry other) live above h
view-Numbered s id g (Output.market_event e ∷ outs) entry wanted next end live above
      (inr (mine, n, h)) =
    subst (λ xs. Numbered next xs end)
      (sym (
        event_shown s id g e outs entry wanted mine live
          (subst (λ k. StaysAbove wanted k (Output.market_event e ∷ outs)) (sym n) above)))
      (
        n,
        view-Numbered s id g outs entry wanted ((next + 1) % word) end live
            (StaysAbove-next wanted next (Output.market_event e) outs above) h,
      )
view-Numbered s id g (Output.snapshot_ready r ∷ outs) entry wanted next end live above (d, h) =
    elim (Bool-cases (s == r.symbol)) [
      | inl mine ↦
          quiet-Numbered s id g (Output.snapshot_ready r) outs entry wanted next end
            (view-Numbered s id g outs) (late_snapshot-IsQuiet s id g r entry wanted mine live) live
            above h
      | inr other ↦
          quiet-Numbered s id g (Output.snapshot_ready r) outs entry wanted next end
            (view-Numbered s id g outs) (other_snapshot-IsQuiet s id g r entry other) live above h
    ]
view-Numbered s id g (Output.reply r ∷ outs) entry wanted next end live above h =
    quiet-Numbered s id g (Output.reply r) outs entry wanted next end (view-Numbered s id g outs)
      (reply-IsQuiet s id g r entry) live above h
view-Numbered s id g (Output.outbox_closed ∷ outs) entry wanted next end live above h =
    view-Numbered s id g outs entry wanted next end live
      (StaysAbove-skip wanted next Output.outbox_closed outs above) h
