-- ===== src/Conservation.antt =====
-- Where the quantity of an added order goes (Book::add_order, engine/src/book.cpp).
use order_book_engine.Prelude.{
  ℕ, ℤ, pos, ◌+ℤ◌, ◌-ℤ◌, ltb_ℤ, Option, none, some, List, [], ◌∷◌, ◌++◌, ◌≡◌, refl, ap, ◌∙◌, ◌⊎◌,
  inl, inr, ◌&&◌, ◌||◌, not, Bool-cases, arith, int_laws, append_assoc,
}
use order_book_engine.Types.{Order, OrderResult, RejectReason, EventKind, EngineEvent, is_ok}
use order_book_engine.Levels.{NodePool, acquire}
use order_book_engine.Book.State.{Book, emit}
use order_book_engine.Book.Matching.{MatchPlan, is_market, plan_match}
use order_book_engine.Book.Filling.{FillLoop, start_loop, validate_order_fields, validate_new_order}
use order_book_engine.Book.Filling.Trades.{
  trade_total, accounted, execute_fills-accounted, execute_fills_id,
}
use order_book_engine.Book.Settling.{
  Outcome, incoming_event, expire, rest_in, rest_or_expire_in, rest_or_expire, rest_clamped,
  clamp_to_edge, rest_at_band_edge, settle_at_band, rest_at_price, settle,
}
use order_book_engine.Book.Adding.{
  AfterTrades, run_fills, after_trades, record_prices, result_of, accept_order, add_order_core_with,
  check_duplicate,
}
use order_book_engine.Book.Cascade.{check_and_trigger_stops, add_order_core, add_order}
use order_book_engine.History.{Extends, Extends-tracking}
use order_book_engine.Tracking.Adding.{after_trades_tracked}
use order_book_engine.History.Cascade.{priced_check-Extends}

-- Among the events stands one by which the given quantity of the order comes to rest.
abbrev pub RestsIn : List EngineEvent → ℕ → ℤ → Type 0
RestsIn events id quantity =
    (before : List EngineEvent) × (e : EngineEvent) × (after : List EngineEvent) × (events
      ≡ before ++ e ∷ after)
    × (e.kind ≡ EventKind.rested)
    × (e.order_id ≡ id)
    × (e.quantity ≡ quantity)

-- The remainder is reported back, or all of it rests and nothing is reported.
abbrev Settled : Order → Outcome → Type 0
Settled o out =
    (out.unaccepted_quantity ≡ o.quantity)
    ⊎ ((out.unaccepted_quantity ≡ pos 0)
        × (out.reject_reason ≡ RejectReason.none)
        × RestsIn out.book.events o.id o.quantity)

module _ (now : ℤ) where
  rest_or_expire_in-Settled :
      (found : Option (ℕ × NodePool)) (o : Order) (price : ℤ) (reported : Option ℤ)
      (why : RejectReason) (b : Book)
      → Settled o (rest_or_expire_in found o price reported why now b)
  unfolding rest_in expire emit
  rest_or_expire_in-Settled none o price reported why b = inl refl
  rest_or_expire_in-Settled (some (n, pool)) o price reported why b =
      inr (refl, refl, (_, _, [], refl, refl, refl, refl))

  rest_or_expire-Settled :
      (o : Order) (price : ℤ) (reported : Option ℤ) (why : RejectReason) (b : Book)
      → Settled o (rest_or_expire o price reported why now b)
  unfolding rest_or_expire
  rest_or_expire-Settled o price reported why b =
      rest_or_expire_in-Settled (acquire b.pool) o price reported why b

  rest_clamped-Settled :
      (o : Order) (edge : ℤ) (why : RejectReason) (b : Book)
      → Settled o (rest_clamped o edge why now b)
  unfolding expire
  rest_clamped-Settled o edge why b =
      let clamped = record o { price = some edge } in
      elim (Bool-cases (is_ok (validate_order_fields clamped))) [
        | inl e ↦ rw e (rest_or_expire-Settled clamped edge (some edge) why b)
        | inr e ↦ rw e (inl refl)
      ]

  rest_at_band_edge-Settled :
      (price : Option ℤ) (o : Order) (why : RejectReason) (b : Book)
      → Settled o (rest_at_band_edge price o why now b)
  unfolding expire
  rest_at_band_edge-Settled none o why b = inl refl
  rest_at_band_edge-Settled (some price) o why b =
      rest_clamped-Settled o (clamp_to_edge o.side price b) why b

  settle_at_band-Settled :
      (o : Order) (why : RejectReason) (b : Book) → Settled o (settle_at_band o why now b)
  unfolding settle_at_band
  settle_at_band-Settled o why b = elim (Bool-cases (is_market o.type)) [
    | inl e ↦ inl (ground arith)
    | inr e ↦ simp e (rest_at_band_edge-Settled o.price o why b)
  ]

  rest_at_price-Settled :
      (price : Option ℤ) (o : Order) (b : Book) → Settled o (rest_at_price price o now b)
  unfolding expire
  rest_at_price-Settled none o b = inl refl
  rest_at_price-Settled (some price) o b =
      rest_or_expire-Settled o price none RejectReason.pool_exhausted b

  settle-Settled : (plan : MatchPlan) (s : FillLoop) → Settled s.incoming (settle plan s now)
  unfolding settle
  settle-Settled plan s = elim (Bool-cases (s.halted_by_band || s.band_limited)) [
    | inl stopped ↦ simp stopped (settle_at_band-Settled s.incoming _ s.book)
    | inr through ↦ elim (Bool-cases plan.halted_by_self_trade) [
      | inl own ↦ inl (ground arith)
      | inr other ↦
          elim (Bool-cases (ltb_ℤ (pos 0) s.incoming.quantity && not (is_market s.incoming.type))) [
            | inl rests ↦
                simp (through, other, rests)
                  (rest_at_price-Settled s.incoming.price s.incoming s.book)
            | inr ends ↦ inl (ground arith)
          ]
    ]
  ]

RestsIn-append :
    (es new fs : List EngineEvent) (id : ℕ) (quantity : ℤ)
    → fs ≡ es ++ new
    → RestsIn es id quantity
    → RestsIn fs id quantity
RestsIn-append es new fs id quantity grown (before, e, after, place, kind, order, amount) = (
  before,
  e,
  after ++ new,
  grown ∙ ap (λ xs. xs ++ new) place ∙ append_assoc before (e ∷ after) new,
  kind,
  order,
  amount,
)

-- The quantity that was not traded is reported back, or rests and is announced by an event.
abbrev pub Conserves : Order → Book × OrderResult → Type 0
Conserves o (c, r) =
    (trade_total r.trades +ℤ r.unaccepted_quantity ≡ o.quantity)
    ⊎ ((r.unaccepted_quantity ≡ pos 0)
        × (r.reject_reason ≡ RejectReason.none)
        × RestsIn c.events o.id (o.quantity -ℤ trade_total r.trades))

run_fills-accounted :
    (o : Order) (now : ℤ) (b : Book)
    → let loop = run_fills o now b in (accounted loop ≡ o.quantity) × (loop.incoming.id ≡ o.id)
unfolding run_fills
run_fills-accounted o now b =
    let fills = (plan_match b o).fills in
    (
      execute_fills-accounted fills now (start_loop o b) ∙ omega int_laws,
      execute_fills_id fills now (start_loop o b),
    )

settled :
    (o : Order) (check : AfterTrades)
    → ((low high price now : ℤ) (b : Book) → Extends b (check low high now (record_prices price b)))
    → (now : ℤ) (loop : FillLoop) (out : Outcome)
    → (accounted loop ≡ o.quantity) × (loop.incoming.id ≡ o.id)
    → Settled loop.incoming out
    → Conserves o (after_trades check loop.trades now out.book, result_of loop out)
settled o check keeps now loop out (total, same) (inl back) = inl (rw back total)
settled o check keeps now loop out (total, same) (inr (nothing, accepted, rests)) =
    let (new, grown, _) =
      (after_trades_tracked Extends Extends-tracking check keeps loop.trades now out.book).events in
    inr (
      nothing,
      accepted,
      RestsIn-append out.book.events new _ o.id _ grown (rw (← same, ← total, left) rests),
    )
  where
    left :
        trade_total loop.trades +ℤ loop.incoming.quantity -ℤ trade_total loop.trades
        ≡ loop.incoming.quantity
    left = omega int_laws

accept_order-Conserves :
    (check : AfterTrades)
    → ((low high price now : ℤ) (b : Book) → Extends b (check low high now (record_prices price b)))
    → (o : Order) (now : ℤ) (b : Book) → Conserves o (accept_order check o now b)
unfolding accept_order
accept_order-Conserves check keeps o now b =
    let accepted = emit (incoming_event EventKind.accepted now o) b in
    let plan = plan_match accepted o in
    let loop = run_fills o now accepted in
    let out = settle plan loop now in
    settled o check keeps now loop out (run_fills-accounted o now accepted)
      (settle-Settled now plan loop)

-- Whatever happens to an added order, its quantity is accounted for: the trades and the reported
-- quantity add up to it, or nothing is reported, no reason is given, and an event says that the
-- quantity that was not traded rests on the book.
pub add_order-Conserves : (o : Order) (now : ℤ) (b : Book) → Conserves o (add_order o now b)
unfolding add_order add_order_core add_order_core_with
add_order-Conserves o now b =
    let (why, checked) = validate_new_order o now b in
    let invalid = check_duplicate o.id why checked in
    elim (Bool-cases (not (is_ok invalid))) [
      | inl e ↦ inl (simp e (omega int_laws))
      | inr e ↦
          simp e (accept_order-Conserves check_and_trigger_stops priced_check-Extends o now checked)
    ]
