-- ===== src/Server/Feeds.antt =====
-- The worker, the publisher and a stream together (server/src/worker.cpp, server/src/publisher.cpp).
pub mod Histories
pub mod Private
pub mod Resuming
pub mod Starting
pub mod Viewing
pub mod Waiting
pub mod Asking
pub mod Whole
use Prim.Native.String.{String}
use order_book_engine.Prelude.{
  ℕ, ◌+◌, ◌-◌, ◌%◌, ◌<◌, ltb, Bool, true, false, ◌&&◌, Option, none, some, List, [], ◌∷◌, ◌++◌, ◌≡◌,
  refl, sym, ap, subst, ◌∙◌, inl, inr, ◌⊎◌, arith, Bool-cases, Option-cases, if◌then◌else◌, if_both,
  lookup, insert, lookup-insert, ◌==◌, ==_iff, ==_refl,
}
use order_book_engine.Book.State.{Book, word}
use order_book_engine.Server.Commands.{Stamped, Output, MarketEvent, SnapshotReady, Reply}
use order_book_engine.Server.Worker.{Worker, serve_all}
use order_book_engine.Server.Worker.Streams.Dating.{Stream}
use order_book_engine.Server.Worker.Streams.Flowing.{serve_all-Flows}
use order_book_engine.Server.Subscription.{FeedItem, Subscription}
use order_book_engine.Server.Publisher.{Publisher, Subscriber, SymbolState, make_live, shows}
use order_book_engine.Server.Publisher.Consistent.{IsConsistent}
use order_book_engine.Server.Publisher.Views.{view, shown, after, waits, go_live}
use order_book_engine.Server.Publisher.Views.Sessions.{Action, outputs_of, act_all}
use order_book_engine.Server.Publisher.Views.Observing.{act_all-view}

-- The outputs about one symbol, and the items of a stream about it.
abbrev pub outputs_about : ℕ → List Output → List Output
outputs_about s [] = []
outputs_about s (Output.market_event e ∷ outs) =
    let rest = outputs_about s outs in if s == e.symbol then Output.market_event e ∷ rest else rest
outputs_about s (Output.snapshot_ready r ∷ outs) =
    let rest = outputs_about s outs in
    if s == r.symbol then Output.snapshot_ready r ∷ rest else rest
outputs_about s (Output.reply r ∷ outs) = outputs_about s outs
outputs_about s (Output.outbox_closed ∷ outs) = outputs_about s outs

abbrev pub items_about : ℕ → List FeedItem → List FeedItem
items_about s [] = []
items_about s (FeedItem.market_event e ∷ items) =
    let rest = items_about s items in if s == e.symbol then FeedItem.market_event e ∷ rest else rest
items_about s (FeedItem.snapshot_ready r ∷ items) =
    let rest = items_about s items in
    if s == r.symbol then FeedItem.snapshot_ready r ∷ rest else rest
items_about s (FeedItem.reply r ∷ items) = items_about s items

-- Events alone, numbered from `next` on, modulo 2 ^ 64; `end` is the number after them.
abbrev pub Numbered : ℕ → List FeedItem → ℕ → Type 0
Numbered next [] end = end ≡ next
Numbered next (FeedItem.market_event e ∷ items) end =
    (e.event.sequence_number ≡ next) × Numbered ((next + 1) % word) items end
Numbered next (FeedItem.snapshot_ready r ∷ items) end = true ≡ false
Numbered next (FeedItem.reply r ∷ items) end = true ≡ false

-- Nothing yet; or a snapshot first, and then the events after it.
abbrev pub StartsWithSnapshot : List FeedItem → ℕ → Type 0
StartsWithSnapshot [] end = Unit
StartsWithSnapshot (FeedItem.snapshot_ready r ∷ items) end =
    Numbered ((r.snapshot.as_of_sequence + 1) % word) items end
StartsWithSnapshot (FeedItem.market_event e ∷ items) end = true ≡ false
StartsWithSnapshot (FeedItem.reply r ∷ items) end = true ≡ false

about_event :
    (s : ℕ) (e : MarketEvent) (outs : List Output)
    → (s == e.symbol) ≡ true
    → outputs_about s (Output.market_event e ∷ outs) ≡ Output.market_event e ∷ outputs_about s outs
about_event s e outs mine = rw mine refl

about_other_event :
    (s : ℕ) (e : MarketEvent) (outs : List Output)
    → (s == e.symbol) ≡ false
    → outputs_about s (Output.market_event e ∷ outs) ≡ outputs_about s outs
about_other_event s e outs other = rw other refl

about_snapshot :
    (s : ℕ) (r : SnapshotReady) (outs : List Output)
    → (s == r.symbol) ≡ true
    → outputs_about s (Output.snapshot_ready r ∷ outs)
      ≡ Output.snapshot_ready r ∷ outputs_about s outs
about_snapshot s r outs mine = rw mine refl

about_other_snapshot :
    (s : ℕ) (r : SnapshotReady) (outs : List Output)
    → (s == r.symbol) ≡ false
    → outputs_about s (Output.snapshot_ready r ∷ outs) ≡ outputs_about s outs
about_other_snapshot s r outs other = rw other refl

-- A stream is told by the outputs about its symbol.
Stream-to_about :
    (s next end : ℕ) (outs : List Output)
    → Stream s next outs end
    → Stream s next (outputs_about s outs) end
Stream-to_about s next end [] h = h
Stream-to_about s next end (Output.market_event e ∷ outs) (inl (other, h)) =
    rw other (Stream-to_about s next end outs h)
Stream-to_about s next end (Output.market_event e ∷ outs) (inr (mine, n, h)) =
    subst (λ os. Stream s next os end) (sym (about_event s e outs mine))
      (inr (mine, n, Stream-to_about s ((next + 1) % word) end outs h))
Stream-to_about s next end (Output.snapshot_ready r ∷ outs) (d, h) =
    elim (Bool-cases (s == r.symbol)) [
      | inr other ↦ rw other (Stream-to_about s next end outs h)
      | inl mine ↦
          subst (λ os. Stream s next os end) (sym (about_snapshot s r outs mine))
            (d, Stream-to_about s next end outs h)
    ]
Stream-to_about s next end (Output.reply r ∷ outs) h = Stream-to_about s next end outs h
Stream-to_about s next end (Output.outbox_closed ∷ outs) h = Stream-to_about s next end outs h

Stream-of_about :
    (s next end : ℕ) (outs : List Output)
    → Stream s next (outputs_about s outs) end
    → Stream s next outs end
Stream-of_about s next end [] h = h
Stream-of_about s next end (Output.market_event e ∷ outs) h = elim (Bool-cases (s == e.symbol)) [
  | inr other ↦ inl (
    other,
    Stream-of_about s next end outs
        (subst (λ os. Stream s next os end) (about_other_event s e outs other) h),
  )
  | inl mine ↦ elim (subst (λ os. Stream s next os end) (about_event s e outs mine) h) [
    | inl (other, k) ↦ absurd (ground (arith, mine, other))
    | inr (m, n, k) ↦ inr (m, n, Stream-of_about s ((next + 1) % word) end outs k)
  ]
]
Stream-of_about s next end (Output.snapshot_ready r ∷ outs) h = elim (Bool-cases (s == r.symbol)) [
  | inr other ↦ (
    inl other,
    Stream-of_about s next end outs
        (subst (λ os. Stream s next os end) (about_other_snapshot s r outs other) h),
  )
  | inl mine ↦
      let (d, k) = subst (λ os. Stream s next os end) (about_snapshot s r outs mine) h in
      (d, Stream-of_about s next end outs k)
]
Stream-of_about s next end (Output.reply r ∷ outs) h = Stream-of_about s next end outs h
Stream-of_about s next end (Output.outbox_closed ∷ outs) h = Stream-of_about s next end outs h

-- The outputs about a symbol decide whether it has a stream.
pub Stream-about :
    (s next end : ℕ) (outs others : List Output)
    → outputs_about s outs ≡ outputs_about s others
    → Stream s next outs end
    → Stream s next others end
Stream-about s next end outs others same h =
    Stream-of_about s next end others
      (subst (λ os. Stream s next os end) same (Stream-to_about s next end outs h))
