-- ===== src/Tracking/Filling.antt =====
-- Tracked relations through the loop over the fills and its passive orders
-- (add_order_core, engine/src/book.cpp).
use order_book_engine.Prelude.{
  ℕ, ℤ, Option, none, some, List, [], ◌∷◌, refl, inl, inr, Bool-cases, ◌-ℤ◌, leb_ℤ, ltb_ℤ, ◌==ℤ◌,
}
use order_book_engine.Types.{Side, Order, Node, Level, FinalState, is_fully_filled}
use order_book_engine.Book.State.{Book, with_levels}
use order_book_engine.Book.Bands.{within_band}
use order_book_engine.Book.Matching.{ProposedFill}
use order_book_engine.Book.Resting.{
  node_at, write_node, at_level, reduce_resting, unlink_and_maybe_erase_level, remove_resting,
  place_node,
}
use order_book_engine.Book.Filling.{
  FillLoop, use_grace, out_of_band, resumed_event, check_band, retire_if_filled, fill_passive,
  execute_fill, execute_fills, trade_event, make_trade, validate_new_order,
}
use order_book_engine.Book.Filling.Trades.{state_of, Verdict-cases}
use order_book_engine.Tracking.{Tracking}

module _ (R : Book → Book → Type 0) (tracking : Tracking R) where
  with_levels_tracked : (side : Side) (ls : List Level) (b : Book) → R b (with_levels side ls b)
  with_levels_tracked Side.buy ls b = tracking.same _ _ refl
  with_levels_tracked Side.sell ls b = tracking.same _ _ refl

  at_level_tracked :
      (side : Side) (level : Option ℤ) (change : ℤ → List Level → List Level) (b : Book)
      → R b (at_level side level change b)
  at_level_tracked side none change b = tracking.same b b refl
  at_level_tracked side (some price) change b = with_levels_tracked side _ b

  write_node_tracked : (n : ℕ) (node : Node) (b : Book) → R b (write_node n node b)
  write_node_tracked n node b = tracking.same _ _ refl

  pub reduce_resting_tracked : (n : ℕ) (by : ℤ) (b : Book) → R b (reduce_resting n by b)
  unfolding reduce_resting
  reduce_resting_tracked n by b =
      tracking.trans _ _ _ (at_level_tracked (node_at b n).order.side (node_at b n).level _ b)
        (write_node_tracked n _ _)

  unlink_tracked : (n : ℕ) (b : Book) → R b (unlink_and_maybe_erase_level n b)
  unfolding unlink_and_maybe_erase_level
  unlink_tracked n b =
      tracking.trans _ _ _ (at_level_tracked (node_at b n).order.side (node_at b n).level _ b)
        (write_node_tracked n _ _)

  pub remove_resting_tracked : (n : ℕ) (b : Book) → R b (remove_resting n b)
  unfolding remove_resting
  remove_resting_tracked n b = tracking.trans _ _ _ (unlink_tracked n b) (tracking.same _ _ refl)

  pub place_node_tracked :
      (n : ℕ) (incoming : Order) (price : ℤ) (b : Book) → R b (place_node n incoming price b)
  unfolding place_node
  place_node_tracked n incoming price b =
      tracking.trans _ _ _ (tracking.same _ _ refl) (with_levels_tracked incoming.side _ _)

  retire_tracked : (n : ℕ) (b : Book) → R b (retire_if_filled n b)
  unfolding retire_if_filled
  retire_tracked n b = elim (Bool-cases (is_fully_filled (node_at b n).order)) [
    | inl full ↦ rw full (
        tracking.trans _ _ _ (tracking.finished _ _ (node_at b n).order.id FinalState.filled refl)
          (remove_resting_tracked n _))
    | inr rest ↦ rw rest (tracking.same b b refl)
  ]

  fill_passive_tracked : (f : ProposedFill) (b : Book) → R b (fill_passive f b)
  unfolding fill_passive
  fill_passive_tracked f b = tracking.trans _ _ _ (write_node_tracked f.passive_node _ b) (
      tracking.trans _ _ _ (reduce_resting_tracked f.passive_node f.fill_quantity _)
        (retire_tracked f.passive_node _))

  execute_fill_tracked :
      (f : ProposedFill) (now : ℤ) (s : FillLoop) → R s.book (execute_fill f now s).book
  unfolding execute_fill
  execute_fill_tracked f now s = tracking.trans _ _ _ (tracking.same _ _ refl) (
      tracking.trans _ _ _ (tracking.emitted (trade_event (make_trade f now s.incoming s.book)) _)
        (fill_passive_tracked f _))

  use_grace_tracked :
      (price : ℤ) (breach : Option ℤ) (s : FillLoop)
      → R s.book (state_of (use_grace price breach s)).book
  use_grace_tracked price none s = tracking.same s.book s.book refl
  use_grace_tracked price (some breach) s = elim (Bool-cases (price ==ℤ breach)) [
    | inl e ↦ rw e (tracking.same s.book s.book refl)
    | inr e ↦ rw e (tracking.same s.book s.book refl)
  ]

  out_of_band_tracked :
      (price now : ℤ) (since : Option ℤ) (s : FillLoop)
      → R s.book (state_of (out_of_band price now since s)).book
  out_of_band_tracked price now none s = tracking.same _ _ refl
  out_of_band_tracked price now (some since) s =
      elim (Bool-cases (leb_ℤ s.book.grace_period_ms (now -ℤ since))) [
        | inl e ↦ rw e (tracking.trans _ _ _ (tracking.same _ _ refl) (tracking.emitted _ _))
        | inr e ↦ rw e (use_grace_tracked price s.breach_level s)
      ]

  check_band_tracked :
      (price now : ℤ) (s : FillLoop) → R s.book (state_of (check_band price now s)).book
  unfolding check_band
  check_band_tracked price now s = elim (Bool-cases (within_band price s.book)) [
    | inl e ↦ rw e (tracking.same _ _ refl)
    | inr e ↦ rw e (out_of_band_tracked price now s.book.outside_band_since s)
  ]

  pub execute_fills_tracked :
      (fs : List ProposedFill) (now : ℤ) (s : FillLoop) → R s.book (execute_fills fs now s).book
  unfolding execute_fills
  execute_fills_tracked [] now s = tracking.same s.book s.book refl
  execute_fills_tracked (f ∷ fs) now s = elim (Verdict-cases (check_band f.fill_price now s)) [
    | inl (s', e) ↦
        rw (e, execute_fills)
          (tracking.trans _ _ _ (rw e at (check_band_tracked f.fill_price now s)) (
            tracking.trans _ _ _ (execute_fill_tracked f now s')
              (execute_fills_tracked fs now (execute_fill f now s'))))
    | inr (s', e) ↦ rw (e, execute_fills) (rw e at (check_band_tracked f.fill_price now s))
  ]

  pub validate_new_order_tracked :
      (incoming : Order) (now : ℤ) (b : Book) → R b (validate_new_order incoming now b).1
  unfolding validate_new_order
  validate_new_order_tracked incoming now b = elim (Bool-cases b.halted) [
    | inl e ↦ elim (Bool-cases (ltb_ℤ now b.halt_until)) [
      | inl early ↦ simp (e, early) (tracking.same b b refl)
      | inr over ↦
          simp (e, over)
            (tracking.trans _ _ _ (tracking.same _ _ refl) (tracking.emitted (resumed_event now) _))
    ]
    | inr e ↦ simp e (tracking.same b b refl)
  ]
