-- ===== src/Server/Worker/Streams/Serving.antt =====
-- The streams of events through all that a worker serves (server/src/worker.cpp).
use Prim.Native.String.{String}
use order_book_engine.Prelude.{
  ℕ, ℤ, pos, Option, none, some, List, [], ◌∷◌, ◌≡◌, refl, sym, subst, inl, inr, arith, Bool-cases,
  lookup, max_ℤ,
}
use order_book_engine.Types.{RejectReason}
use order_book_engine.Book.State.{Book}
use order_book_engine.History.{Consecutive, Consecutive-append}
use order_book_engine.Server.Commands.{Command, Stamped, Output}
use order_book_engine.History.Sessions.{run-Consecutive}
use order_book_engine.Book.Cascade.{add_order}
use order_book_engine.Book.Commands
use order_book_engine.Book.StopCommands.{place_stop_order, cancel_stop_order, modify_stop_order}
use order_book_engine.Book.Calls.{Call, call, run, book_after}
use order_book_engine.Server.Worker.{
  Worker, answer_stop, with_book, visit_command, serve_command, serve, is_shutdown, after_outputs,
  then_serve, serve_all,
}
use order_book_engine.Server.Worker.Streams.{events_of, events_of-append, GoesOn, answer-GoesOn}

-- Of a step that may throw.
abbrev pub GoesOnIf : ℕ → Book → Option (Worker × List Output) → Type 0
GoesOnIf s b none = Unit
GoesOnIf s b (some (v, outs)) = GoesOn s b v outs

-- A call that finds no events leaves those that it has emitted.
call-Consecutive :
    (c : Call) (now : ℤ) (a d : Book)
    → call c now a ≡ some d
    → a.events ≡ []
    → Consecutive a.next_seq d.events d.next_seq
unfolding run
call-Consecutive c now a d e empty =
    let ran : run ((now, c) ∷ []) a ≡ some d = rw e refl in
    let (new, grown, numbered) = run-Consecutive ((now, c) ∷ []) a d ran in
    let all : d.events ≡ new = ground (arith, grown, empty) in
    subst (λ es. Consecutive a.next_seq es d.next_seq) (sym all) numbered

answer_stop-GoesOn :
    (s symbol : ℕ) (client_order_id : String) (order_id : ℕ) (item : Stamped) (w : Worker)
    (a b : Book) (served : Option (Book × RejectReason))
    → lookup symbol w.books ≡ some a
    → ((c : Book)
        → book_after served ≡ some c
        → a.events ≡ []
        → Consecutive a.next_seq c.events c.next_seq)
    → lookup s w.books ≡ some b
    → b.events ≡ []
    → GoesOnIf s b (answer_stop symbol client_order_id order_id item w served)
answer_stop-GoesOn s symbol client_order_id order_id item w a b none found next here empty = tt
answer_stop-GoesOn s symbol client_order_id order_id item w a b (some (c, why)) found next here
      empty =
    answer-GoesOn s symbol 0 String.[] item client_order_id order_id why (pos 0) none w a b c found
      (next c refl) here empty

with_book-GoesOn :
    (s : ℕ) (b : Book) (found : Option Book) (f : Book → Option (Worker × List Output))
    → ((a : Book) → found ≡ some a → GoesOnIf s b (f a))
    → GoesOnIf s b (with_book found f)
with_book-GoesOn s b none f h = tt
with_book-GoesOn s b (some a) f h = h a refl

abbrev pub at_time : Stamped → Worker → Worker
at_time item w = record w { last_ts = max_ℤ item.ts w.last_ts }

pub serve_command-GoesOn :
    (command : Command) (item : Stamped) (w : Worker) (s : ℕ) (b : Book)
    → lookup s w.books ≡ some b
    → b.events ≡ []
    → GoesOnIf s b (serve_command command item w)
unfolding visit_command call
serve_command-GoesOn (Command.new_order arg) item w s b here empty =
    with_book-GoesOn s b (lookup arg.symbol w.books) _ (λ a found.
      let now = max_ℤ item.ts w.last_ts in
      let order = record (arg.order) { id = item.seq } in
      let (c, r) = add_order order now a in
      answer-GoesOn s arg.symbol item.seq arg.client_order_id item arg.client_order_id item.seq
        r.reject_reason r.unaccepted_quantity r.rested_price (at_time item w) a b c found
        (call-Consecutive (Call.add order) now a c refl) here empty)
serve_command-GoesOn (Command.cancel_order arg) item w s b here empty =
    with_book-GoesOn s b (lookup arg.symbol w.books) _ (λ a found.
      let now = max_ℤ item.ts w.last_ts in
      let (c, why) = Commands.cancel_order arg.order_id arg.requester now a in
      answer-GoesOn s arg.symbol 0 String.[] item arg.client_order_id arg.order_id why (pos 0) none
        (at_time item w) a b c found
        (call-Consecutive (Call.cancel arg.order_id arg.requester) now a c refl) here empty)
serve_command-GoesOn (Command.modify_order arg) item w s b here empty =
    with_book-GoesOn s b (lookup arg.symbol w.books) _ (λ a found.
      let now = max_ℤ item.ts w.last_ts in
      let asked = Call.modify arg.order_id arg.requester arg.new_price arg.new_quantity in
      let (c, r) =
        Commands.modify_order arg.order_id arg.requester arg.new_price arg.new_quantity now a in
      answer-GoesOn s arg.symbol 0 String.[] item arg.client_order_id arg.order_id r.reject_reason
        r.unaccepted_quantity r.rested_price (at_time item w) a b c found
        (call-Consecutive asked now a c refl) here empty)
serve_command-GoesOn (Command.place_stop arg) item w s b here empty =
    with_book-GoesOn s b (lookup arg.symbol w.books) _ (λ a found.
      let now = max_ℤ item.ts w.last_ts in
      let stop = record (arg.stop) { id = item.seq } in
      let (c, why) = place_stop_order stop now a in
      answer-GoesOn s arg.symbol item.seq arg.client_order_id item arg.client_order_id item.seq why
        (pos 0) none (at_time item w) a b c found
        (call-Consecutive (Call.place_stop stop) now a c refl) here empty)
serve_command-GoesOn (Command.cancel_stop arg) item w s b here empty =
    with_book-GoesOn s b (lookup arg.symbol w.books) _ (λ a found.
      let now = max_ℤ item.ts w.last_ts in
      answer_stop-GoesOn s arg.symbol arg.client_order_id arg.order_id item (at_time item w) a b
        (cancel_stop_order arg.order_id arg.requester now a) found
        (λ c. call-Consecutive (Call.cancel_stop arg.order_id arg.requester) now a c) here empty)
serve_command-GoesOn (Command.modify_stop arg) item w s b here empty =
    with_book-GoesOn s b (lookup arg.symbol w.books) _ (λ a found.
      let now = max_ℤ item.ts w.last_ts in
      let asked =
        Call.modify_stop arg.order_id arg.requester arg.new_stop_price arg.new_limit_price
          arg.new_quantity in
      answer_stop-GoesOn s arg.symbol arg.client_order_id arg.order_id item (at_time item w) a b
        (modify_stop_order arg.order_id arg.requester arg.new_stop_price arg.new_limit_price
          arg.new_quantity now a)
        found (λ c. call-Consecutive asked now a c) here empty)
serve_command-GoesOn Command.shutdown item w s b here empty = (b, here, empty, refl)
serve_command-GoesOn (Command.take_snapshot arg) item w s b here empty =
    with_book-GoesOn s b (lookup arg.symbol w.books) _ (λ a found. (b, here, empty, refl))

then_serve-GoesOn :
    (s : ℕ) (b : Book) (first : Option (Worker × List Output))
    (f : Worker → Option (Worker × List Output))
    → GoesOnIf s b first
    → ((w : Worker) (c : Book) → lookup s w.books ≡ some c → c.events ≡ [] → GoesOnIf s c (f w))
    → GoesOnIf s b (then_serve first f)
then_serve-GoesOn s b none f h k = tt
then_serve-GoesOn s b (some (w, outs)) f (c, here, empty, numbered) k =
    both (f w) (k w c here empty)
  where
    both :
        (rest : Option (Worker × List Output))
        → GoesOnIf s c rest
        → GoesOnIf s b (after_outputs outs rest)
    both none q = tt
    both (some (v, more)) (d, there, cleared, next) = (
      d,
      there,
      cleared,
      subst (λ es. Consecutive b.next_seq es d.next_seq) (sym (events_of-append s outs more))
          (Consecutive-append (events_of s outs) (events_of s more) b.next_seq c.next_seq d.next_seq
            numbered next),
    )

serve_all-GoesOnIf :
    (items : List Stamped) (w : Worker) (s : ℕ) (b : Book)
    → lookup s w.books ≡ some b
    → b.events ≡ []
    → GoesOnIf s b (serve_all items w)
unfolding serve_all serve
serve_all-GoesOnIf [] w s b here empty = (b, here, empty, refl)
serve_all-GoesOnIf (item ∷ items) w s b here empty = elim (Bool-cases (is_shutdown item.command)) [
  | inl over ↦ rw over (b, here, empty, refl)
  | inr more ↦ rw more (
      then_serve-GoesOn s b (serve item w) (serve_all items)
        (serve_command-GoesOn item.command item w s b here empty)
        (λ v c there cleared. serve_all-GoesOnIf items v s c there cleared))
]

-- A worker that serves its items without an exception publishes all events of each of its symbols
-- whose book holds none at first, numbered without a gap, modulo 2 ^ 64, from the next number of the
-- symbol's book before them to that after them, and leaves no event in the book.
pub serve_all-GoesOn :
    (items : List Stamped) (w v : Worker) (outs : List Output) (s : ℕ) (b : Book)
    → serve_all items w ≡ some (v, outs)
    → lookup s w.books ≡ some b
    → b.events ≡ []
    → GoesOn s b v outs
serve_all-GoesOn items w v outs s b e here empty =
    subst (GoesOnIf s b) e (serve_all-GoesOnIf items w s b here empty)
