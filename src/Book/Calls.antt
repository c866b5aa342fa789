-- ===== src/Book/Calls.antt =====
-- The calls of class Book (engine/include/engine/book.hpp) that change it, and sequences of them.
use order_book_engine.Prelude.{ℕ, ℤ, Option, none, some, List, [], ◌∷◌}
use order_book_engine.Types.{Order, StopOrder, RejectReason}
use order_book_engine.Book.State.{Book}
use order_book_engine.Book.Cascade.{add_order}
use order_book_engine.Book.Commands.{cancel_order, modify_order}
use order_book_engine.Book.StopCommands.{place_stop_order, cancel_stop_order, modify_stop_order}

pub data Call : Type 0 where
  add : Order → Call
  cancel : ℕ → ℕ → Call
  modify : ℕ → ℕ → ℤ → ℤ → Call
  place_stop : StopOrder → Call
  cancel_stop : ℕ → ℕ → Call
  modify_stop : ℕ → ℕ → ℤ → Option ℤ → ℤ → Call

abbrev pub book_after : Option (Book × RejectReason) → Option Book
book_after none = none
book_after (some (b, why)) = some b

-- `none` where the source would read a stop that its index names and its maps do not hold.
unfoldable pub call : Call → ℤ → Book → Option Book
call (add o) now b = some (add_order o now b).0
call (cancel id requester) now b = some (cancel_order id requester now b).0
call (modify id requester price quantity) now b =
    some (modify_order id requester price quantity now b).0
call (place_stop s) now b = some (place_stop_order s now b).0
call (cancel_stop id requester) now b = book_after (cancel_stop_order id requester now b)
call (modify_stop id requester stop_price limit_price quantity) now b =
    book_after (modify_stop_order id requester stop_price limit_price quantity now b)

abbrev pub and_then : Option Book → (Book → Option Book) → Option Book
and_then none f = none
and_then (some b) f = f b

-- Calls with their times, in order.
unfoldable pub run : List (ℤ × Call) → Book → Option Book
run [] b = some b
run ((now, c) ∷ cs) b = and_then (call c now b) (run cs)
