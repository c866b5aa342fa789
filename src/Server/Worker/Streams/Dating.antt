-- ===== src/Server/Worker/Streams/Dating.antt =====
-- The snapshots among the outputs of a worker say which events they contain (server/src/worker.cpp).
use Prim.Native.String.{String}
use order_book_engine.Prelude.{
  ℕ, ◌+◌, ◌-◌, ◌%◌, ℤ, pos, Bool, true, false, Option, none, some, List, [], ◌∷◌, ◌++◌, ◌≡◌, refl,
  subst, inl, inr, ◌⊎◌, arith, Bool-cases, lookup, max_ℤ, ◌==◌,
}
use order_book_engine.Types.{RejectReason, EngineEvent}
use order_book_engine.Book.State.{Book, word, drain_events}
use order_book_engine.History.{Consecutive}
use order_book_engine.Server.Commands.{Command, Stamped, Output, MarketEvent}
use order_book_engine.Book.Cascade.{add_order}
use order_book_engine.Book.Commands
use order_book_engine.Book.StopCommands.{place_stop_order, cancel_stop_order, modify_stop_order}
use order_book_engine.Server.Worker.{
  Worker, answer, publish, make_reply, answer_stop, with_book, visit_command, serve_command,
}
use order_book_engine.Server.Worker.Streams.{events_of}
use order_book_engine.Server.Worker.Streams.Serving.{at_time}

-- Of the outputs, those about the symbol: its events are numbered from `next` on, modulo 2 ^ 64, and
-- `end` is the number after them; its snapshots are of the number before the next event's.
abbrev pub Stream : ℕ → ℕ → List Output → ℕ → Type 0
Stream s next [] end = end ≡ next
Stream s next (Output.market_event e ∷ outs) end =
    (((s == e.symbol) ≡ false) × Stream s next outs end)
    ⊎ (((s == e.symbol) ≡ true)
        × (e.event.sequence_number ≡ next)
        × Stream s ((next + 1) % word) outs end)
Stream s next (Output.snapshot_ready r ∷ outs) end =
    (((s == r.symbol) ≡ false) ⊎ (r.snapshot.as_of_sequence ≡ (next + word - 1) % word))
    × Stream s next outs end
Stream s next (Output.reply r ∷ outs) end = Stream s next outs end
Stream s next (Output.outbox_closed ∷ outs) end = Stream s next outs end

pub Stream-append :
    (s a b c : ℕ) (os ps : List Output)
    → Stream s a os b
    → Stream s b ps c
    → Stream s a (os ++ ps) c
Stream-append s a b c [] ps h k = subst (λ n. Stream s n ps c) h k
Stream-append s a b c (Output.market_event e ∷ os) ps (inl (other, h)) k =
    inl (other, Stream-append s a b c os ps h k)
Stream-append s a b c (Output.market_event e ∷ os) ps (inr (mine, n, h)) k =
    inr (mine, n, Stream-append s ((a + 1) % word) b c os ps h k)
Stream-append s a b c (Output.snapshot_ready r ∷ os) ps (d, h) k =
    (d, Stream-append s a b c os ps h k)
Stream-append s a b c (Output.reply r ∷ os) ps h k = Stream-append s a b c os ps h k
Stream-append s a b c (Output.outbox_closed ∷ os) ps h k = Stream-append s a b c os ps h k

abbrev pub has_snapshot : List Output → Bool
has_snapshot [] = false
has_snapshot (Output.snapshot_ready r ∷ outs) = true
has_snapshot (Output.market_event e ∷ outs) = has_snapshot outs
has_snapshot (Output.reply r ∷ outs) = has_snapshot outs
has_snapshot (Output.outbox_closed ∷ outs) = has_snapshot outs

events_mine :
    (s : ℕ) (e : MarketEvent) (outs : List Output)
    → (s == e.symbol) ≡ true
    → events_of s (Output.market_event e ∷ outs) ≡ e.event ∷ events_of s outs
events_mine s e outs mine = rw mine refl

events_other :
    (s : ℕ) (e : MarketEvent) (outs : List Output)
    → (s == e.symbol) ≡ false
    → events_of s (Output.market_event e ∷ outs) ≡ events_of s outs
events_other s e outs other = rw other refl

pub Consecutive-Stream :
    (s a c : ℕ) (outs : List Output)
    → has_snapshot outs ≡ false
    → Consecutive a (events_of s outs) c
    → Stream s a outs c
Consecutive-Stream s a c [] none_there h = h
Consecutive-Stream s a c (Output.market_event e ∷ outs) none_there h =
    elim (Bool-cases (s == e.symbol)) [
      | inl mine ↦
          let (n, rest) : Consecutive a (e.event ∷ events_of s outs) c =
            subst (λ es. Consecutive a es c) (events_mine s e outs mine) h in
          inr (mine, n, Consecutive-Stream s ((a + 1) % word) c outs none_there rest)
      | inr other ↦
          let rest : Consecutive a (events_of s outs) c =
            subst (λ es. Consecutive a es c) (events_other s e outs other) h in
          inl (other, Consecutive-Stream s a c outs none_there rest)
    ]
Consecutive-Stream s a c (Output.snapshot_ready r ∷ outs) none_there h = absurd (ground arith)
Consecutive-Stream s a c (Output.reply r ∷ outs) none_there h =
    Consecutive-Stream s a c outs none_there h
Consecutive-Stream s a c (Output.outbox_closed ∷ outs) none_there h =
    Consecutive-Stream s a c outs none_there h

-- No snapshot among the outputs of a step that may throw.
abbrev pub HasNone : Option (Worker × List Output) → Type 0
HasNone none = Unit
HasNone (some (w, outs)) = has_snapshot outs ≡ false

publish-has_snapshot :
    (symbol own_id : ℕ) (own_client_id : String) (es : List EngineEvent) (more : List Output)
    → has_snapshot (publish symbol own_id own_client_id es ++ more) ≡ has_snapshot more
unfolding publish
publish-has_snapshot symbol own_id own_client_id [] more = refl
publish-has_snapshot symbol own_id own_client_id (e ∷ es) more =
    publish-has_snapshot symbol own_id own_client_id es more

answer-HasNone :
    (symbol own_id : ℕ) (own_client_id : String) (item : Stamped) (client_order_id : String)
    (order_id : ℕ) (why : RejectReason) (unaccepted : ℤ) (rested : Option ℤ) (w : Worker) (c : Book)
    → HasNone (
        some (
          answer symbol own_id own_client_id c
            (make_reply item client_order_id symbol order_id why unaccepted rested)
            w))
unfolding answer drain_events
answer-HasNone symbol own_id own_client_id item client_order_id order_id why unaccepted rested w c =
    publish-has_snapshot symbol own_id own_client_id c.events
      (make_reply item client_order_id symbol order_id why unaccepted rested ∷ [])

answer_stop-HasNone :
    (symbol : ℕ) (client_order_id : String) (order_id : ℕ) (item : Stamped) (w : Worker)
    (served : Option (Book × RejectReason))
    → HasNone (answer_stop symbol client_order_id order_id item w served)
unfolding answer drain_events
answer_stop-HasNone symbol client_order_id order_id item w none = tt
answer_stop-HasNone symbol client_order_id order_id item w (some (c, why)) =
    publish-has_snapshot symbol 0 String.[] c.events
      (make_reply item client_order_id symbol order_id why (pos 0) none ∷ [])

with_book-HasNone :
    (found : Option Book) (f : Book → Option (Worker × List Output))
    → ((a : Book) → HasNone (f a))
    → HasNone (with_book found f)
with_book-HasNone none f h = tt
with_book-HasNone (some a) f h = h a

abbrev pub is_snapshot : Command → Bool
is_snapshot (Command.take_snapshot arg) = true
is_snapshot _ = false

pub serve_command-HasNone :
    (command : Command) (item : Stamped) (w : Worker)
    → is_snapshot command ≡ false
    → HasNone (serve_command command item w)
unfolding visit_command answer drain_events
serve_command-HasNone (Command.new_order arg) item w e =
    with_book-HasNone (lookup arg.symbol w.books) _ (λ a.
      let (c, r) = add_order (record (arg.order) { id = item.seq }) (max_ℤ item.ts w.last_ts) a in
      answer-HasNone arg.symbol item.seq arg.client_order_id item arg.client_order_id item.seq
        r.reject_reason r.unaccepted_quantity r.rested_price (at_time item w) c)
serve_command-HasNone (Command.cancel_order arg) item w e =
    with_book-HasNone (lookup arg.symbol w.books) _ (λ a.
      let (c, why) = Commands.cancel_order arg.order_id arg.requester (max_ℤ item.ts w.last_ts) a in
      answer-HasNone arg.symbol 0 String.[] item arg.client_order_id arg.order_id why (pos 0) none
        (at_time item w) c)
serve_command-HasNone (Command.modify_order arg) item w e =
    with_book-HasNone (lookup arg.symbol w.books) _ (λ a.
      let (c, r) =
        Commands.modify_order arg.order_id arg.requester arg.new_price arg.new_quantity
          (max_ℤ item.ts w.last_ts) a in
      answer-HasNone arg.symbol 0 String.[] item arg.client_order_id arg.order_id r.reject_reason
        r.unaccepted_quantity r.rested_price (at_time item w) c)
serve_command-HasNone (Command.place_stop arg) item w e =
    with_book-HasNone (lookup arg.symbol w.books) _ (λ a.
      let (c, why) =
        place_stop_order (record (arg.stop) { id = item.seq }) (max_ℤ item.ts w.last_ts) a in
      answer-HasNone arg.symbol item.seq arg.client_order_id item arg.client_order_id item.seq why
        (pos 0) none (at_time item w) c)
serve_command-HasNone (Command.cancel_stop arg) item w e =
    with_book-HasNone (lookup arg.symbol w.books) _ (λ a.
      answer_stop-HasNone arg.symbol arg.client_order_id arg.order_id item (at_time item w)
        (cancel_stop_order arg.order_id arg.requester (max_ℤ item.ts w.last_ts) a))
serve_command-HasNone (Command.modify_stop arg) item w e =
    with_book-HasNone (lookup arg.symbol w.books) _ (λ a.
      answer_stop-HasNone arg.symbol arg.client_order_id arg.order_id item (at_time item w) (
        modify_stop_order arg.order_id arg.requester arg.new_stop_price arg.new_limit_price
          arg.new_quantity (max_ℤ item.ts w.last_ts) a))
serve_command-HasNone Command.shutdown item w e = refl
serve_command-HasNone (Command.take_snapshot arg) item w e = absurd (ground arith)
