-- ===== src/Server/Worker/Streams/Flowing.antt =====
-- The outputs of a worker for one symbol, events and snapshots together (server/src/worker.cpp).
use order_book_engine.Prelude.{
  ℕ, Option, none, some, List, [], ◌∷◌, ◌≡◌, refl, sym, ap, subst, inl, inr, arith, Bool-cases,
  lookup, ◌==◌, ==_iff,
}
use order_book_engine.Book.State.{Book}
use order_book_engine.Book.Queries.{last_sequence, snapshot}
use order_book_engine.Server.Commands.{Command, Stamped, Output, TakeSnapshot}
use order_book_engine.Server.Worker.{
  Worker, with_book, snapshot_output, serve_command, serve, is_shutdown, after_outputs, then_serve,
  serve_all,
}
use order_book_engine.Server.Worker.Streams.Serving.{GoesOnIf, serve_command-GoesOn}
use order_book_engine.Server.Worker.Streams.Dating.{
  Stream, Stream-append, HasNone, Consecutive-Stream, serve_command-HasNone,
}

-- From a book without events to one without events, by a stream.
abbrev pub Flows : ℕ → Book → Worker → List Output → Type 0
Flows s b v outs =
    (c : Book) × (lookup s v.books ≡ some c) × (c.events ≡ []) × Stream s b.next_seq outs c.next_seq

abbrev FlowsIf : ℕ → Book → Option (Worker × List Output) → Type 0
FlowsIf s b none = Unit
FlowsIf s b (some (v, outs)) = Flows s b v outs

undated-FlowsIf :
    (s : ℕ) (b : Book) (o : Option (Worker × List Output))
    → GoesOnIf s b o
    → HasNone o
    → FlowsIf s b o
undated-FlowsIf s b none h k = tt
undated-FlowsIf s b (some (v, outs)) (c, there, empty, numbered) k =
    (c, there, empty, Consecutive-Stream s b.next_seq c.next_seq outs k numbered)

-- A snapshot is of the number before the next event of its book.
snapshot-FlowsIf :
    (arg : TakeSnapshot) (w : Worker) (s : ℕ) (b : Book) (found : Option Book)
    → lookup arg.symbol w.books ≡ found
    → lookup s w.books ≡ some b
    → b.events ≡ []
    → FlowsIf s b (with_book found (λ a. some (w, snapshot_output arg a ∷ [])))
unfolding snapshot
snapshot-FlowsIf arg w s b none e here empty = tt
snapshot-FlowsIf arg w s b (some a) e here empty = (
  b,
  here,
  empty,
  (
    elim (Bool-cases (s == arg.symbol)) [
      | inr other ↦ inl other
      | inl mine ↦
          let symbols : arg.symbol ≡ s = sym ((==_iff s arg.symbol).0 mine) in
          let found_here : lookup s w.books ≡ some a = rw (← symbols) e in
          let books : a ≡ b = ground (arith, found_here, here) in
          inr (ap (λ x. last_sequence x) books)
    ],
    refl,
  ),
)

serve_command-FlowsIf :
    (command : Command) (item : Stamped) (w : Worker) (s : ℕ) (b : Book)
    → lookup s w.books ≡ some b
    → b.events ≡ []
    → FlowsIf s b (serve_command command item w)
serve_command-FlowsIf (Command.take_snapshot arg) item w s b here empty =
    snapshot-FlowsIf arg w s b (lookup arg.symbol w.books) refl here empty
serve_command-FlowsIf command item w s b here empty =
    undated-FlowsIf s b (serve_command command item w)
      (serve_command-GoesOn command item w s b here empty)
      (serve_command-HasNone command item w refl)

after_outputs-FlowsIf :
    (s : ℕ) (b c : Book) (outs : List Output) (rest : Option (Worker × List Output))
    → Stream s b.next_seq outs c.next_seq
    → FlowsIf s c rest
    → FlowsIf s b (after_outputs outs rest)
after_outputs-FlowsIf s b c outs none h k = tt
after_outputs-FlowsIf s b c outs (some (v, more)) h (d, there, empty, next) =
    (d, there, empty, Stream-append s b.next_seq c.next_seq d.next_seq outs more h next)

then_serve-FlowsIf :
    (s : ℕ) (b : Book) (first : Option (Worker × List Output))
    (f : Worker → Option (Worker × List Output))
    → FlowsIf s b first
    → ((w : Worker) (c : Book) → lookup s w.books ≡ some c → c.events ≡ [] → FlowsIf s c (f w))
    → FlowsIf s b (then_serve first f)
then_serve-FlowsIf s b none f h k = tt
then_serve-FlowsIf s b (some (w, outs)) f (c, here, empty, stream) k =
    after_outputs-FlowsIf s b c outs (f w) stream (k w c here empty)

serve_all-FlowsIf :
    (items : List Stamped) (w : Worker) (s : ℕ) (b : Book)
    → lookup s w.books ≡ some b
    → b.events ≡ []
    → FlowsIf s b (serve_all items w)
unfolding serve_all serve
serve_all-FlowsIf [] w s b here empty = (b, here, empty, refl)
serve_all-FlowsIf (item ∷ items) w s b here empty = elim (Bool-cases (is_shutdown item.command)) [
  | inl over ↦ rw over (b, here, empty, refl)
  | inr more ↦ rw more (
      then_serve-FlowsIf s b (serve item w) (serve_all items)
        (serve_command-FlowsIf item.command item w s b here empty)
        (λ v c there cleared. serve_all-FlowsIf items v s c there cleared))
]

-- What a worker that serves its items without an exception outputs about one of its symbols, whose
-- book holds no events at first.
pub serve_all-Flows :
    (items : List Stamped) (w v : Worker) (outs : List Output) (s : ℕ) (b : Book)
    → serve_all items w ≡ some (v, outs)
    → lookup s w.books ≡ some b
    → b.events ≡ []
    → Flows s b v outs
serve_all-Flows items w v outs s b e here empty =
    subst (FlowsIf s b) e (serve_all-FlowsIf items w s b here empty)
