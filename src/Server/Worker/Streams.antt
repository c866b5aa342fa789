-- ===== src/Server/Worker/Streams.antt =====
-- The events that a worker publishes for one symbol (server/src/worker.cpp).
pub mod Serving
pub mod Dating
pub mod Flowing
use Prim.Native.String.{String}
use order_book_engine.Prelude.{
  ℕ, ℤ, pos, Option, none, some, List, [], ◌∷◌, ◌++◌, ◌≡◌, refl, sym, ◌∙◌, subst, inl, inr, arith,
  Bool-cases, if◌then◌else◌, ◌==◌, lookup, lookup-insert, append-nil, max_ℤ,
}
use order_book_engine.Types.{EngineEvent, RejectReason}
use order_book_engine.Book.State.{Book, drain_events}
use order_book_engine.History.{Consecutive, Consecutive-append}
use order_book_engine.Server.Commands.{Command, Stamped, Output}
use order_book_engine.History.Sessions.{run-Consecutive}
use order_book_engine.Book.Cascade.{add_order}
use order_book_engine.Book.Commands
use order_book_engine.Book.StopCommands.{place_stop_order, cancel_stop_order, modify_stop_order}
use order_book_engine.Book.Calls.{Call, call, run, book_after}
use order_book_engine.Server.Worker.{
  Worker, publish, answer, make_reply, answer_stop, with_book, visit_command, serve_command, serve,
  is_shutdown, after_outputs, then_serve, serve_all,
}

-- The events of a symbol among the outputs, in order.
abbrev pub events_of : ℕ → List Output → List EngineEvent
events_of symbol [] = []
events_of symbol (Output.market_event e ∷ outs) =
    if symbol == e.symbol then e.event ∷ events_of symbol outs else events_of symbol outs
events_of symbol (Output.reply r ∷ outs) = events_of symbol outs
events_of symbol (Output.snapshot_ready s ∷ outs) = events_of symbol outs
events_of symbol (Output.outbox_closed ∷ outs) = events_of symbol outs

pub events_of-append :
    (s : ℕ) (os ps : List Output) → events_of s (os ++ ps) ≡ events_of s os ++ events_of s ps
events_of-append s [] ps = refl
events_of-append s (Output.market_event e ∷ os) ps = ground (arith, events_of-append s os ps)
events_of-append s (Output.reply r ∷ os) ps = events_of-append s os ps
events_of-append s (Output.snapshot_ready x ∷ os) ps = events_of-append s os ps
events_of-append s (Output.outbox_closed ∷ os) ps = events_of-append s os ps

events_of-publish :
    (s symbol own_id : ℕ) (own_client_id : String) (es : List EngineEvent)
    → events_of s (publish symbol own_id own_client_id es) ≡ (if s == symbol then es else [])
unfolding publish
events_of-publish s symbol own_id own_client_id [] = ground arith
events_of-publish s symbol own_id own_client_id (e ∷ es) =
    ground (arith, events_of-publish s symbol own_id own_client_id es)

-- The stream of a symbol goes on: from a book without events to one without events, and what was
-- published in between is numbered without a gap.
abbrev pub GoesOn : ℕ → Book → Worker → List Output → Type 0
GoesOn s b v outs =
    (c : Book) × (lookup s v.books ≡ some c)
    × (c.events ≡ [])
    × Consecutive b.next_seq (events_of s outs) c.next_seq

pub answer-GoesOn :
    (s symbol own_id : ℕ) (own_client_id : String) (item : Stamped) (client_order_id : String)
    (order_id : ℕ) (why : RejectReason) (unaccepted : ℤ) (rested : Option ℤ) (w : Worker)
    (a b c : Book)
    → lookup symbol w.books ≡ some a
    → (a.events ≡ [] → Consecutive a.next_seq c.events c.next_seq)
    → lookup s w.books ≡ some b
    → b.events ≡ []
    → let replied = make_reply item client_order_id symbol order_id why unaccepted rested in
      let (v, outs) = answer symbol own_id own_client_id c replied w in GoesOn s b v outs
unfolding answer drain_events
answer-GoesOn s symbol own_id own_client_id item client_order_id order_id why unaccepted rested w a
      b c found next here empty =
    let replied = make_reply item client_order_id symbol order_id why unaccepted rested in
    let drained = record c { events = [] } in
    let outs = publish symbol own_id own_client_id c.events ++ replied ∷ [] in
    let seen : events_of s outs ≡ (if s == symbol then c.events else []) =
      events_of-append s (publish symbol own_id own_client_id c.events) (replied ∷ [])
      ∙ append-nil (events_of s (publish symbol own_id own_client_id c.events))
      ∙ events_of-publish s symbol own_id own_client_id c.events in
    let stored = lookup-insert symbol s drained w.books in
    elim (Bool-cases (s == symbol)) [
      | inl same ↦
          let kept : a.next_seq ≡ b.next_seq = ground (arith, found, here) in
          let cleared : a.events ≡ [] = ground (arith, found, here, empty) in
          let all : events_of s outs ≡ c.events = ground (arith, seen) in
          (
            drained,
            ground (arith, stored),
            refl,
            subst (λ es. Consecutive b.next_seq es c.next_seq) (sym all)
                (subst (λ n. Consecutive n c.events c.next_seq) kept (next cleared)),
          )
      | inr other ↦
          let nothing : events_of s outs ≡ [] = ground (arith, seen) in
          (
            b,
            ground (arith, stored, here),
            empty,
            subst (λ es. Consecutive b.next_seq es b.next_seq) (sym nothing) refl,
          )
    ]
