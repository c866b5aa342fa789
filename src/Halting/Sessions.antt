-- ===== src/Halting/Sessions.antt =====
-- A whole session of calls during a halt (class Book, engine/include/engine/book.hpp).
use order_book_engine.Prelude.{
  ℤ, ◌<ℤ◌, Option, none, some, List, [], ◌∷◌, ◌++◌, ◌≡◌, ap, sym, subst, ◌∙◌, true, All,
}
use order_book_engine.Types.{EngineEvent}
use order_book_engine.Book.State.{Book}
use order_book_engine.Book.Calls.{
  Call, add, cancel, modify, place_stop, cancel_stop, modify_stop, call, and_then, run,
}
use order_book_engine.Halting.{
  IsHalted, IsQuiet, Held, Quiet, Quiet-refl, Quiet-trans, add_order-Quiet, cancel_order-Quiet,
  modify_order-Quiet,
}
use order_book_engine.Halting.Stops.{
  QuietIf, place_stop_order-Quiet, cancel_stop_order-Quiet, modify_stop_order-Quiet,
}

call-Quiet : (c : Call) (now : ℤ) (b : Book) → IsHalted now b → QuietIf b (call c now b)
unfolding call
call-Quiet (add o) now b h = add_order-Quiet o now b h
call-Quiet (cancel id requester) now b h = cancel_order-Quiet id requester now b
call-Quiet (modify id requester price quantity) now b h =
    modify_order-Quiet id requester price quantity now b h
call-Quiet (place_stop s) now b h = place_stop_order-Quiet s now b
call-Quiet (cancel_stop id requester) now b h = cancel_stop_order-Quiet id requester now b
call-Quiet (modify_stop id requester price limit_price quantity) now b h =
    modify_stop_order-Quiet id requester price limit_price quantity now b

-- Every call of the session comes before the end of the halt.
abbrev pub Early : ℤ → ℤ × Call → Type 0
Early halt_until (now, c) = now <ℤ halt_until

QuietIf-trans : (b c : Book) (d : Option Book) → Quiet b c → QuietIf c d → QuietIf b d
QuietIf-trans b c none h k = tt
QuietIf-trans b c (some d) h k = Quiet-trans b c d h k

-- What a quiet call leaves of the halt.
still_halted :
    (cs : List (ℤ × Call)) (b c : Book)
    → Quiet b c
    → b.halted ≡ true
    → All (Early b.halt_until) cs
    → (c.halted ≡ true) × All (Early c.halt_until) cs
still_halted cs b c (held, (new, quiet, kept)) halted early = (
  ap (λ x. x.halted) kept ∙ halted,
  subst (λ t. All (Early t) cs) (sym (ap (λ x. x.halt_until) kept)) early,
)

and_then-QuietIf :
    (cs : List (ℤ × Call)) (b : Book) (m : Option Book) (f : Book → Option Book)
    → QuietIf b m
    → b.halted ≡ true
    → All (Early b.halt_until) cs
    → ((c : Book) → c.halted ≡ true → All (Early c.halt_until) cs → QuietIf c (f c))
    → QuietIf b (and_then m f)
and_then-QuietIf cs b none f h halted early k = tt
and_then-QuietIf cs b (some c) f h halted early k =
    let (on, before) = still_halted cs b c h halted early in
    QuietIf-trans b c (f c) h (k c on before)

run-QuietIf :
    (cs : List (ℤ × Call)) (b : Book)
    → b.halted ≡ true
    → All (Early b.halt_until) cs
    → QuietIf b (run cs b)
unfolding run
run-QuietIf [] b halted early = Quiet-refl b
run-QuietIf ((now, c) ∷ cs) b halted early =
    and_then-QuietIf cs b (call c now b) (run cs) (call-Quiet c now b (halted, early.0)) halted
      early.1 (run-QuietIf cs)

-- A session of calls that all come before the end of a halt leaves the halt on until the same time,
-- trades nothing and moves neither the reference price nor the last trade price, and the events that
-- it appends are only rejects, cancels and reductions of orders, and commands on stops. No order is on
-- the book after it that was not there before.
pub run_halted :
    (cs : List (ℤ × Call)) (b c : Book)
    → run cs b ≡ some c
    → b.halted ≡ true
    → All (Early b.halt_until) cs
    → (c.halted ≡ true)
      × (c.halt_until ≡ b.halt_until)
      × (c.next_trade_id ≡ b.next_trade_id)
      × (c.reference_price ≡ b.reference_price)
      × (c.last_trade_price ≡ b.last_trade_price)
      × ((new : List EngineEvent) × (c.events ≡ b.events ++ new) × All IsQuiet new)
      × Held b c
run_halted cs b c e halted early =
    let (held, (new, quiet, kept)) = subst (QuietIf b) e (run-QuietIf cs b halted early) in
    (
      ap (λ x. x.halted) kept ∙ halted,
      ap (λ x. x.halt_until) kept,
      ap (λ x. x.next_trade_id) kept,
      ap (λ x. x.reference_price) kept,
      ap (λ x. x.last_trade_price) kept,
      (new, ap (λ x. x.events) kept, quiet),
      held,
    )
