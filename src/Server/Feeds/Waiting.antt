-- ===== src/Server/Feeds/Waiting.antt =====
-- The view of a stream that waits for the snapshot of a symbol (server/src/publisher.cpp, `route`).
use Prim.Native.String.{String}
use order_book_engine.Prelude.{
  ℕ, ◌+◌, ◌-◌, ◌%◌, ◌<◌, true, some, List, [], ◌∷◌, ◌≡◌, refl, sym, ap, subst, ◌∙◌, inl, inr, arith,
  Bool-cases, lookup, lookup-insert, ◌==◌, ==_iff, ==_refl,
}
use order_book_engine.Book.State.{word}
use order_book_engine.Server.Commands.{Output, SnapshotReady}
use order_book_engine.Server.Worker.Streams.Dating.{Stream}
use order_book_engine.Server.Subscription.{FeedItem}
use order_book_engine.Server.Publisher.{Subscriber, make_live}
use order_book_engine.Server.Publisher.Views.{view, after}
use order_book_engine.Server.Feeds.{items_about, Numbered, StartsWithSnapshot}
use order_book_engine.Server.Feeds.Viewing.{
  IsQuiet, aside_snapshot-IsQuiet, hidden_event-IsQuiet, live_from, other_event-IsQuiet,
  other_snapshot-IsQuiet, reply-IsQuiet, view-Numbered, view-quiet, waiting_state,
}

abbrev FromWaiting : ℕ → ℕ → String → List Output → Type 0
FromWaiting s id g outs =
    (entry : Subscriber) (next end : ℕ)
    → next < word
    → lookup s entry.live ≡ some waiting_state
    → Stream s next outs end
    → StartsWithSnapshot (items_about s (view id g outs entry)) end

quiet-Starts :
    (s id : ℕ) (g : String) (o : Output) (outs : List Output) (entry : Subscriber) (next end : ℕ)
    → FromWaiting s id g outs
    → IsQuiet s id g o entry
    → next < word
    → lookup s entry.live ≡ some waiting_state
    → Stream s next outs end
    → StartsWithSnapshot (items_about s (view id g (o ∷ outs) entry)) end
quiet-Starts s id g o outs entry next end rest (nothing, same) small waiting h =
    subst (λ xs. StartsWithSnapshot xs end) (sym (view-quiet s id g o outs entry nothing))
      (rest (after id o entry) next end small (same ∙ waiting) h)

number_after : (n : ℕ) → n < word → ((n + word - 1) % word + 1) % word ≡ n
number_after n small = omega (arith, small)

pub snapshot_shown :
    (s id : ℕ) (g : String) (r : SnapshotReady) (outs : List Output) (entry : Subscriber)
    → (s == r.symbol) ≡ true
    → (id == r.subscriber) ≡ true
    → lookup s entry.live ≡ some waiting_state
    → (items_about s (view id g (Output.snapshot_ready r ∷ outs) entry)
        ≡ FeedItem.snapshot_ready r
          ∷ items_about s (view id g outs (make_live s waiting_state entry)))
snapshot_shown s id g r outs entry mine here waiting =
    let symbols : r.symbol ≡ s = sym ((==_iff s r.symbol).0 mine) in
    rw (symbols, here, waiting, ==_refl s) refl

snapshot-Starts :
    (s id : ℕ) (g : String) (r : SnapshotReady) (outs : List Output) (entry : Subscriber)
    (next end : ℕ)
    → (s == r.symbol) ≡ true
    → (id == r.subscriber) ≡ true
    → next < word
    → lookup s entry.live ≡ some waiting_state
    → r.snapshot.as_of_sequence ≡ (next + word - 1) % word
    → Stream s next outs end
    → StartsWithSnapshot (items_about s (view id g (Output.snapshot_ready r ∷ outs) entry)) end
snapshot-Starts s id g r outs entry next end mine here small waiting dated h =
    let then_live : lookup s (make_live s waiting_state entry).live ≡ some (live_from 0) =
      lookup-insert s s (live_from 0) entry.live ∙ rw (==_refl s) refl in
    let first : next ≡ (r.snapshot.as_of_sequence + 1) % word =
      sym (ap (λ n. (n + 1) % word) dated ∙ number_after next small) in
    subst (λ xs. StartsWithSnapshot xs end)
      (sym (snapshot_shown s id g r outs entry mine here waiting))
      (subst
        (λ n. Numbered n (items_about s (view id g outs (make_live s waiting_state entry))) end)
        first
        (view-Numbered s id g outs (make_live s waiting_state entry) 0 next end then_live (inl refl)
          h))

-- A symbol that waits for its snapshot: nothing before it, and then all events after it.
pub view-StartsWithSnapshot : (s id : ℕ) (g : String) (outs : List Output) → FromWaiting s id g outs
view-StartsWithSnapshot s id g [] entry next end small waiting h = tt
view-StartsWithSnapshot s id g (Output.market_event e ∷ outs) entry next end small waiting
      (inl (other, h)) =
    quiet-Starts s id g (Output.market_event e) outs entry next end
      (view-StartsWithSnapshot s id g outs) (other_event-IsQuiet s id g e entry other) small waiting
      h
view-StartsWithSnapshot s id g (Output.market_event e ∷ outs) entry next end small waiting
      (inr (mine, n, h)) =
    quiet-Starts s id g (Output.market_event e) outs entry ((next + 1) % word) end
      (view-StartsWithSnapshot s id g outs) (hidden_event-IsQuiet s id g e entry mine waiting)
      (omega arith) waiting h
view-StartsWithSnapshot s id g (Output.snapshot_ready r ∷ outs) entry next end small waiting
      (d, h) =
    elim (Bool-cases (s == r.symbol)) [
      | inr other ↦
          quiet-Starts s id g (Output.snapshot_ready r) outs entry next end
            (view-StartsWithSnapshot s id g outs) (other_snapshot-IsQuiet s id g r entry other)
            small waiting h
      | inl mine ↦ elim (Bool-cases (id == r.subscriber)) [
        | inr aside ↦
            quiet-Starts s id g (Output.snapshot_ready r) outs entry next end
              (view-StartsWithSnapshot s id g outs) (aside_snapshot-IsQuiet s id g r entry aside)
              small waiting h
        | inl here ↦ elim d [
          | inl other ↦ absurd (ground (arith, mine, other))
          | inr dated ↦ snapshot-Starts s id g r outs entry next end mine here small waiting dated h
        ]
      ]
    ]
view-StartsWithSnapshot s id g (Output.reply r ∷ outs) entry next end small waiting h =
    quiet-Starts s id g (Output.reply r) outs entry next end (view-StartsWithSnapshot s id g outs)
      (reply-IsQuiet s id g r entry) small waiting h
view-StartsWithSnapshot s id g (Output.outbox_closed ∷ outs) entry next end small waiting h =
    view-StartsWithSnapshot s id g outs entry next end small waiting h
