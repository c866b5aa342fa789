-- ===== src/History/Sessions.antt =====
-- Whole sessions of calls of class Book: the numbering of events, ownership, and the use of ids
-- (engine/src/book.cpp, engine/src/stops.cpp).
use order_book_engine.Prelude.{
  ℕ, ℤ, Option, some, List, [], ◌++◌, ◌≡◌, ◌≢◌, true, false, arith, lookup, contains,
}
use order_book_engine.Types.{Order, OrderResult, RejectReason, EngineEvent}
use order_book_engine.Book.State.{Book, owned_by, id_in_use, emit_rejected}
use order_book_engine.Book.Filling.{validate_new_order}
use order_book_engine.Book.Cascade.{add_order, add_order_core}
use order_book_engine.Book.Adding.{add_order_core_with}
use order_book_engine.Book.Commands.{cancel_order, modify_order, no_trades}
use order_book_engine.Book.StopCommands.{cancel_stop_order, modify_stop_order}
use order_book_engine.Book.Calls.{Call, run}
use order_book_engine.History.{Consecutive, Extends}
use order_book_engine.History.Cascade.{Extends-calls}
use order_book_engine.Tracking.Calls.{run_tracked}

run-Extends : (cs : List (ℤ × Call)) (b c : Book) → run cs b ≡ some c → Extends b c
run-Extends = run_tracked Extends Extends-calls

-- A session only appends to the events of the book, and the events that it appends are numbered
-- without a gap, modulo 2 ^ 64, from `next_seq` before it to `next_seq` after it.
pub run-Consecutive :
    (cs : List (ℤ × Call)) (b c : Book)
    → run cs b ≡ some c
    → (new : List EngineEvent) × (c.events ≡ b.events ++ new)
      × Consecutive b.next_seq new c.next_seq
run-Consecutive cs b c e = (run-Extends cs b c e).events

not-owned_by :
    (id owner stranger : ℕ) (b : Book)
    → lookup id b.owner_of ≡ some owner
    → stranger ≢ owner
    → owned_by id stranger b ≡ false
unfolding owned_by
not-owned_by id owner stranger b owned other = ground arith

-- Of an id that has an owner, any other account is told UnknownOrder after every session: its
-- cancels and modifies, of orders and of stops, leave the book as it is.
pub stranger_refused :
    (cs : List (ℤ × Call)) (b c : Book) (id owner stranger : ℕ) (now price quantity : ℤ)
    (limit_price : Option ℤ)
    → run cs b ≡ some c
    → lookup id b.owner_of ≡ some owner
    → stranger ≢ owner
    → (cancel_order id stranger now c ≡ (c, RejectReason.unknown_order))
      × (modify_order id stranger price quantity now c
          ≡ (c, no_trades quantity RejectReason.unknown_order))
      × (cancel_stop_order id stranger now c ≡ some (c, RejectReason.unknown_order))
      × (modify_stop_order id stranger price limit_price quantity now c
          ≡ some (c, RejectReason.unknown_order))
unfolding cancel_order modify_order cancel_stop_order modify_stop_order
stranger_refused cs b c id owner stranger now price quantity limit_price e owned other =
    (rw refused, rw refused, rw refused, rw refused)
  where
    refused : owned_by id stranger c ≡ false
    refused = not-owned_by id owner stranger c ((run-Extends cs b c e).owners id owner owned) other

-- The book that validation returns has the sides, the pool and the ids of the one it was given.
pub validate_new_order_book :
    (o : Order) (now : ℤ) (b : Book)
    → let c = (validate_new_order o now b).1 in
      (c.bids ≡ b.bids)
      × (c.asks ≡ b.asks)
      × (c.pool ≡ b.pool)
      × (c.id_index ≡ b.id_index)
      × (c.finished_orders ≡ b.finished_orders)
      × (c.stop_index ≡ b.stop_index)
unfolding validate_new_order
validate_new_order_book o now b = ground arith

-- A rejected order reports its whole quantity and changes no side of the book.
abbrev pub Refused : Order → Book → Book × OrderResult → Type 0
Refused o b (c, r) =
    (r.trades ≡ [])
    × (r.unaccepted_quantity ≡ o.quantity)
    × (r.reject_reason ≢ RejectReason.none)
    × (c.bids ≡ b.bids)
    × (c.asks ≡ b.asks)
    × (c.pool ≡ b.pool)
    × (c.id_index ≡ b.id_index)

used_id-Refused :
    (o : Order) (now : ℤ) (b : Book) → id_in_use o.id b ≡ true → Refused o b (add_order o now b)
unfolding add_order add_order_core add_order_core_with id_in_use emit_rejected
used_id-Refused o now b used = ground (arith, validate_new_order_book o now b)

in_use : (id : ℕ) (b : Book) → contains id b.finished_orders ≡ true → id_in_use id b ≡ true
unfolding id_in_use
in_use id b over = ground arith

-- An id whose order or stop has finished is never used again: after every session, an order under it
-- is refused whole, trades nothing, and changes neither side of the book, its nodes nor its index.
pub finished_id-Refused :
    (cs : List (ℤ × Call)) (b c : Book) (o : Order) (now : ℤ)
    → run cs b ≡ some c
    → contains o.id b.finished_orders ≡ true
    → Refused o c (add_order o now c)
finished_id-Refused cs b c o now e over =
    used_id-Refused o now c (in_use o.id c ((run-Extends cs b c e).finished o.id over))
