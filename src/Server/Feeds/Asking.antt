-- ===== src/Server/Feeds/Asking.antt =====
-- A snapshot that is asked for arrives (server/src/worker.cpp, server/src/publisher.cpp).
use Prim.Native.String.{String}
use order_book_engine.Prelude.{
  ℕ, Bool, true, false, ◌&&◌, ◌||◌, Option, none, some, List, [], ◌∷◌, ◌++◌, ◌≡◌, refl, sym, ap,
  subst, ◌∙◌, inl, inr, arith, Bool-cases, Option-cases, if◌then◌else◌, lookup, ◌==◌,
}
use order_book_engine.Server.Commands.{Command, Stamped, Output}
use order_book_engine.Server.Worker.{
  Worker, is_shutdown, then_serve, after_outputs, visit_command, serve_command, serve, serve_all,
}
use order_book_engine.Server.Subscription.{FeedItem}
use order_book_engine.Server.Publisher.{Subscriber}
use order_book_engine.Server.Publisher.Views.{view, after}
use order_book_engine.Server.Feeds.{outputs_about, items_about}
use order_book_engine.Server.Feeds.Viewing.{
  waiting_state, IsQuiet, view-quiet, other_event-IsQuiet, hidden_event-IsQuiet,
  other_snapshot-IsQuiet, aside_snapshot-IsQuiet, reply-IsQuiet,
}
use order_book_engine.Server.Feeds.Waiting.{snapshot_shown}

-- The command for a snapshot of the symbol for the subscriber.
abbrev pub is_request : ℕ → ℕ → Command → Bool
is_request s id (Command.take_snapshot arg) = s == arg.symbol && id == arg.subscriber
is_request s id _ = false

-- Such a command is among the items, before any shutdown.
abbrev pub asks_for : ℕ → ℕ → List Stamped → Bool
asks_for s id [] = false
asks_for s id (item ∷ items) =
    let rest = asks_for s id items in
    if is_shutdown item.command then false else is_request s id item.command || rest

abbrev is_arrival : ℕ → ℕ → Output → Bool
is_arrival s id (Output.snapshot_ready r) = s == r.symbol && id == r.subscriber
is_arrival s id _ = false

abbrev pub arrives : ℕ → ℕ → List Output → Bool
arrives s id [] = false
arrives s id (o ∷ outs) = is_arrival s id o || arrives s id outs

abbrev pub is_nil : List FeedItem → Bool
is_nil [] = true
is_nil (x ∷ xs) = false

arrives-append :
    (s id : ℕ) (xs ys : List Output)
    → arrives s id (xs ++ ys) ≡ (arrives s id xs || arrives s id ys)
arrives-append s id [] ys = refl
arrives-append s id (x ∷ xs) ys = ground (arith, arrives-append s id xs ys)

abbrev ArrivesIn : ℕ → ℕ → Bool → Option (Worker × List Output) → Type 0
ArrivesIn s id asked none = Unit
ArrivesIn s id asked (some (w, outs)) = asked ≡ true → arrives s id outs ≡ true

unasked-ArrivesIn : (s id : ℕ) (o : Option (Worker × List Output)) → ArrivesIn s id false o
unasked-ArrivesIn s id none = tt
unasked-ArrivesIn s id (some (w, outs)) = λ e. absurd (ground (arith, e))

serve_command-ArrivesIn :
    (s id : ℕ) (command : Command) (item : Stamped) (w : Worker)
    → ArrivesIn s id (is_request s id command) (serve_command command item w)
serve_command-ArrivesIn s id (Command.take_snapshot arg) item w =
    elim (Option-cases (lookup arg.symbol w.books)) [
      | inl unknown ↦ rw unknown tt
      | inr (b, known) ↦ rw known (λ asked. ground (arith, asked))
    ]
serve_command-ArrivesIn s id command item w = unasked-ArrivesIn s id (serve_command command item w)

after_outputs-ArrivesIn :
    (s id : ℕ) (first rest : Bool) (outs : List Output) (o : Option (Worker × List Output))
    → (first ≡ true → arrives s id outs ≡ true)
    → ArrivesIn s id rest o
    → ArrivesIn s id (first || rest) (after_outputs outs o)
after_outputs-ArrivesIn s id first rest outs none h k = tt
after_outputs-ArrivesIn s id first rest outs (some (v, more)) h k = λ asked.
    elim (Bool-cases first) [
      | inl now ↦ ground (arith, arrives-append s id outs more, h now)
      | inr later ↦ ground (arith, arrives-append s id outs more, k (ground (arith, later, asked)))
    ]

then_serve-ArrivesIn :
    (s id : ℕ) (first rest : Bool) (o : Option (Worker × List Output))
    (f : Worker → Option (Worker × List Output))
    → ArrivesIn s id first o
    → ((w : Worker) → ArrivesIn s id rest (f w))
    → ArrivesIn s id (first || rest) (then_serve o f)
then_serve-ArrivesIn s id first rest none f h next = tt
then_serve-ArrivesIn s id first rest (some (w, outs)) f h next =
    after_outputs-ArrivesIn s id first rest outs (f w) h (next w)

serve_all-ArrivesIn :
    (s id : ℕ) (items : List Stamped) (w : Worker)
    → ArrivesIn s id (asks_for s id items) (serve_all items w)
unfolding serve_all serve visit_command
serve_all-ArrivesIn s id [] w = λ e. absurd (ground (arith, e))
serve_all-ArrivesIn s id (item ∷ items) w = elim (Bool-cases (is_shutdown item.command)) [
  | inl stop ↦ rw stop (λ e. absurd (ground (arith, e)))
  | inr more ↦ rw more (
      then_serve-ArrivesIn s id (is_request s id item.command) (asks_for s id items) (serve item w)
        (serve_all items) (serve_command-ArrivesIn s id item.command item w)
        (λ v. serve_all-ArrivesIn s id items v))
]

-- A worker that serves a request outputs a snapshot.
pub serve_all-arrives :
    (s id : ℕ) (items : List Stamped) (w v : Worker) (outs : List Output)
    → serve_all items w ≡ some (v, outs)
    → asks_for s id items ≡ true
    → arrives s id outs ≡ true
serve_all-arrives s id items w v outs served asked =
    subst (ArrivesIn s id (asks_for s id items)) served (serve_all-ArrivesIn s id items w) asked

-- The outputs about a symbol tell whether it arrives.
arrives-about :
    (s id : ℕ) (outs : List Output) → arrives s id (outputs_about s outs) ≡ arrives s id outs
arrives-about s id [] = refl
arrives-about s id (Output.market_event e ∷ outs) = ground (arith, arrives-about s id outs)
arrives-about s id (Output.snapshot_ready r ∷ outs) = ground (arith, arrives-about s id outs)
arrives-about s id (Output.reply r ∷ outs) = arrives-about s id outs
arrives-about s id (Output.outbox_closed ∷ outs) = arrives-about s id outs

pub arrives-same :
    (s id : ℕ) (outs others : List Output)
    → outputs_about s outs ≡ outputs_about s others
    → arrives s id outs ≡ true
    → arrives s id others ≡ true
arrives-same s id outs others same h =
    sym (arrives-about s id others)
    ∙ sym (ap (λ os. arrives s id os) same)
    ∙ arrives-about s id outs
    ∙ h

-- While the view waits, nothing but the snapshot is shown.
quiet-arrives :
    (s id : ℕ) (g : String) (o : Output) (outs : List Output) (entry : Subscriber)
    → IsQuiet s id g o entry
    → lookup s entry.live ≡ some waiting_state
    → ((x : Subscriber)
        → lookup s x.live ≡ some waiting_state
        → is_nil (items_about s (view id g outs x)) ≡ false)
    → is_nil (items_about s (view id g (o ∷ outs) entry)) ≡ false
quiet-arrives s id g o outs entry (nothing, same) waiting rest =
    ap (λ xs. is_nil xs) (view-quiet s id g o outs entry nothing)
    ∙ rest (after id o entry) (same ∙ waiting)

pub view-arrives :
    (s id : ℕ) (g : String) (outs : List Output) (entry : Subscriber)
    → lookup s entry.live ≡ some waiting_state
    → arrives s id outs ≡ true
    → is_nil (items_about s (view id g outs entry)) ≡ false
view-arrives s id g [] entry waiting h = absurd (ground (arith, h))
view-arrives s id g (Output.market_event e ∷ outs) entry waiting h =
    elim (Bool-cases (s == e.symbol)) [
      | inl mine ↦
          quiet-arrives s id g (Output.market_event e) outs entry
            (hidden_event-IsQuiet s id g e entry mine waiting) waiting
            (λ x k. view-arrives s id g outs x k h)
      | inr other ↦
          quiet-arrives s id g (Output.market_event e) outs entry
            (other_event-IsQuiet s id g e entry other) waiting
            (λ x k. view-arrives s id g outs x k h)
    ]
view-arrives s id g (Output.snapshot_ready r ∷ outs) entry waiting h =
    elim (Bool-cases (s == r.symbol)) [
      | inr other ↦
          quiet-arrives s id g (Output.snapshot_ready r) outs entry
            (other_snapshot-IsQuiet s id g r entry other) waiting
            (λ x k. view-arrives s id g outs x k (ground (arith, other, h)))
      | inl mine ↦ elim (Bool-cases (id == r.subscriber)) [
        | inr aside ↦
            quiet-arrives s id g (Output.snapshot_ready r) outs entry
              (aside_snapshot-IsQuiet s id g r entry aside) waiting
              (λ x k. view-arrives s id g outs x k (ground (arith, aside, h)))
        | inl here ↦ ap (λ xs. is_nil xs) (snapshot_shown s id g r outs entry mine here waiting)
      ]
    ]
view-arrives s id g (Output.reply r ∷ outs) entry waiting h =
    quiet-arrives s id g (Output.reply r) outs entry (reply-IsQuiet s id g r entry) waiting
      (λ x k. view-arrives s id g outs x k h)
view-arrives s id g (Output.outbox_closed ∷ outs) entry waiting h =
    view-arrives s id g outs entry waiting h
