-- ===== src/Tracking/Adding.antt =====
-- Tracked relations through add_order_core (engine/src/book.cpp), over the function that it calls
-- after its trades.
use order_book_engine.Prelude.{ℤ, List, [], ◌∷◌, refl, inl, inr, Bool, true, not, Bool-cases}
use order_book_engine.Types.{
  Order, RejectReason, EventKind, is_ok, FinalState, is_fully_filled, Trade,
}
use order_book_engine.Book.State.{Book, emit, emit_rejected}
use order_book_engine.Book.Matching.{plan_match}
use order_book_engine.Book.Filling.{start_loop, execute_fills, validate_new_order}
use order_book_engine.Book.Settling.{incoming_event}
use order_book_engine.Book.Adding.{
  AfterTrades, mark_filled, run_fills, record_prices, after_trades, reject_order, accept_order,
  add_order_core_with, check_duplicate, low_price, high_price, last_price,
}
use order_book_engine.Tracking.{Tracking}
use order_book_engine.Tracking.Filling.{execute_fills_tracked, validate_new_order_tracked}
use order_book_engine.Tracking.Settling.{settle_tracked}

module _ (R : Book → Book → Type 0) (tracking : Tracking R) where
  mark_filled_tracked : (incoming : Order) (b : Book) → R b (mark_filled incoming b)
  mark_filled_tracked incoming b = elim (Bool-cases (is_fully_filled incoming)) [
    | inl e ↦ simp e (tracking.finished _ _ incoming.id FinalState.filled refl)
    | inr e ↦ simp e (tracking.same b b refl)
  ]

  pub run_fills_tracked :
      (incoming : Order) (now : ℤ) (b : Book) → R b (run_fills incoming now b).book
  unfolding run_fills
  run_fills_tracked incoming now b =
      let s = execute_fills (plan_match b incoming).fills now (start_loop incoming b) in
      tracking.trans _ _ _
        (execute_fills_tracked R tracking (plan_match b incoming).fills now (start_loop incoming b))
        (mark_filled_tracked s.incoming s.book)

  reject_order_tracked :
      (incoming : Order) (why : RejectReason) (now : ℤ) (report : Bool) (b : Book)
      → R b (reject_order incoming why now report b)
  unfolding emit_rejected
  reject_order_tracked incoming why now true b =
      tracking.emitted
        (record (incoming_event EventKind.rejected now incoming) { reject_reason = why }) b
  reject_order_tracked incoming why now report b = tracking.same b b refl

  module _ (check : AfterTrades)
      (keeps : (low high price now : ℤ) (b : Book)
        → R b (check low high now (record_prices price b))) where
    pub after_trades_tracked :
        (ts : List Trade) (now : ℤ) (b : Book) → R b (after_trades check ts now b)
    after_trades_tracked [] now b = tracking.same b b refl
    after_trades_tracked (t ∷ ts) now b =
        keeps (low_price t.price ts) (high_price t.price ts) (last_price t.price ts) now b

    pub accept_order_tracked :
        (incoming : Order) (now : ℤ) (b : Book) → R b (accept_order check incoming now b).0
    unfolding accept_order
    accept_order_tracked incoming now b =
        let accepted = emit (incoming_event EventKind.accepted now incoming) b in
        let loop = run_fills incoming now accepted in
        tracking.trans _ _ _ (tracking.emitted (incoming_event EventKind.accepted now incoming) b) (
          tracking.trans _ _ _ (run_fills_tracked incoming now accepted) (
            tracking.trans _ _ _ (settle_tracked R tracking now (plan_match accepted incoming) loop)
              (after_trades_tracked loop.trades now _)))

    pub add_order_core_with_tracked :
        (incoming : Order) (now : ℤ) (report : Bool) (b : Book)
        → R b (add_order_core_with check incoming now report b).0
    unfolding add_order_core_with
    add_order_core_with_tracked incoming now report b =
        let (why, checked) = validate_new_order incoming now b in
        let invalid = check_duplicate incoming.id why checked in
        tracking.trans _ _ _ (validate_new_order_tracked R tracking incoming now b)
          (elim (Bool-cases (not (is_ok invalid))) [
            | inl e ↦ simp e (reject_order_tracked incoming invalid now report checked)
            | inr e ↦ simp e (accept_order_tracked incoming now checked)
          ])
