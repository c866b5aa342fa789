-- ===== src/Tracking/Settling.antt =====
-- Tracked relations through the end of add_order_core (engine/src/book.cpp).
use order_book_engine.Prelude.{
  ℕ, ℤ, pos, ltb_ℤ, Option, none, some, refl, inl, inr, ◌&&◌, ◌||◌, not, Bool-cases,
}
use order_book_engine.Types.{Order, RejectReason, EventKind, is_ok}
use order_book_engine.Levels.{NodePool, acquire}
use order_book_engine.Book.State.{Book}
use order_book_engine.Book.Matching.{MatchPlan, is_market}
use order_book_engine.Book.Filling.{FillLoop, validate_order_fields}
use order_book_engine.Book.Settling.{
  incoming_event, expire, rest_in, rest_or_expire_in, rest_or_expire, rest_clamped, clamp_to_edge,
  rest_at_band_edge, drop_remainder, settle_at_band, rest_at_price, settle_market, settle,
}
use order_book_engine.Tracking.{Tracking}
use order_book_engine.Tracking.Filling.{place_node_tracked}

module _ (R : Book → Book → Type 0) (tracking : Tracking R) where
  module _ (now : ℤ) where
    expire_tracked :
        (incoming : Order) (why : RejectReason) (b : Book) → R b (expire incoming why now b).book
    unfolding expire
    expire_tracked incoming why b = tracking.emitted _ b

    rest_in_tracked :
        (found : Option (ℕ × NodePool)) (incoming : Order) (price : ℤ) (reported : Option ℤ)
        (why : RejectReason) (b : Book)
        → R b (rest_or_expire_in found incoming price reported why now b).book
    unfolding rest_in
    rest_in_tracked none incoming price reported why b = expire_tracked incoming why b
    rest_in_tracked (some (n, pool)) incoming price reported why b =
        tracking.trans _ _ _ (tracking.same _ _ refl) (
          tracking.trans _ _ _ (place_node_tracked R tracking n incoming price _)
            (tracking.emitted _ _))

    rest_or_expire_tracked :
        (incoming : Order) (price : ℤ) (reported : Option ℤ) (why : RejectReason) (b : Book)
        → R b (rest_or_expire incoming price reported why now b).book
    unfolding rest_or_expire
    rest_or_expire_tracked incoming price reported why b =
        rest_in_tracked (acquire b.pool) incoming price reported why b

    rest_clamped_tracked :
        (incoming : Order) (edge : ℤ) (why : RejectReason) (b : Book)
        → R b (rest_clamped incoming edge why now b).book
    rest_clamped_tracked incoming edge why b =
        let clamped = record incoming { price = some edge } in
        elim (Bool-cases (is_ok (validate_order_fields clamped))) [
          | inl e ↦ rw e (rest_or_expire_tracked clamped edge (some edge) why b)
          | inr e ↦ rw e (expire_tracked clamped why b)
        ]

    drop_remainder_tracked :
        (incoming : Order) (why : RejectReason) (b : Book)
        → R b (drop_remainder incoming why now b).book
    drop_remainder_tracked incoming why b = elim (Bool-cases (ltb_ℤ (pos 0) incoming.quantity)) [
      | inl e ↦ simp e (expire_tracked incoming why b)
      | inr e ↦ simp e (tracking.same b b refl)
    ]

    rest_at_band_edge_tracked :
        (price : Option ℤ) (incoming : Order) (why : RejectReason) (b : Book)
        → R b (rest_at_band_edge price incoming why now b).book
    rest_at_band_edge_tracked none incoming why b = expire_tracked incoming why b
    rest_at_band_edge_tracked (some price) incoming why b =
        rest_clamped_tracked incoming (clamp_to_edge incoming.side price b) why b

    settle_at_band_tracked :
        (incoming : Order) (why : RejectReason) (b : Book)
        → R b (settle_at_band incoming why now b).book
    unfolding settle_at_band
    settle_at_band_tracked incoming why b = elim (Bool-cases (is_market incoming.type)) [
      | inl e ↦ simp e (drop_remainder_tracked incoming why b)
      | inr e ↦ simp e (rest_at_band_edge_tracked incoming.price incoming why b)
    ]

    rest_at_price_tracked :
        (price : Option ℤ) (incoming : Order) (b : Book)
        → R b (rest_at_price price incoming now b).book
    rest_at_price_tracked none incoming b = expire_tracked incoming RejectReason.pool_exhausted b
    rest_at_price_tracked (some price) incoming b =
        rest_or_expire_tracked incoming price none RejectReason.pool_exhausted b

    settle_market_tracked :
        (plan : MatchPlan) (incoming : Order) (b : Book)
        → R b (settle_market plan incoming now b).book
    unfolding settle_market
    settle_market_tracked plan incoming b =
        elim (Bool-cases (is_market incoming.type && ltb_ℤ (pos 0) incoming.quantity)) [
          | inl e ↦ simp e (tracking.emitted (incoming_event EventKind.expired now incoming) b)
          | inr e ↦ simp e (tracking.same b b refl)
        ]

    pub settle_tracked : (plan : MatchPlan) (s : FillLoop) → R s.book (settle plan s now).book
    unfolding settle
    settle_tracked plan s = elim (Bool-cases (s.halted_by_band || s.band_limited)) [
      | inl stopped ↦ simp stopped (settle_at_band_tracked s.incoming _ s.book)
      | inr through ↦ elim (Bool-cases plan.halted_by_self_trade) [
        | inl own ↦ simp (through, own) (expire_tracked s.incoming RejectReason.self_trade s.book)
        | inr other ↦
            elim (Bool-cases
              (ltb_ℤ (pos 0) s.incoming.quantity && not (is_market s.incoming.type))) [
                | inl rests ↦
                    simp (through, other, rests)
                      (rest_at_price_tracked s.incoming.price s.incoming s.book)
                | inr ends ↦
                    simp (through, other, ends) (settle_market_tracked plan s.incoming s.book)
              ]
      ]
    ]
