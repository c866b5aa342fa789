-- ===== src/Book/Filling/Trades.antt =====
-- The trades of add_order_core (engine/src/book.cpp) against the fills that were planned.
use order_book_engine.Prelude.{
  ℤ, pos, ◌+ℤ◌, List, [], ◌∷◌, ◌++◌, ◌≡◌, refl, ◌⊎◌, inl, inr, arith, int_laws, append_assoc,
  append-nil,
}
use order_book_engine.Types.{Trade}
use order_book_engine.Book.Matching.{ProposedFill}
use order_book_engine.Book.Filling.{
  FillLoop, Verdict, proceed, leave, make_trade, check_band, execute_fill, execute_fills,
}

abbrev pub trade_total : List Trade → ℤ
trade_total [] = pos 0
trade_total (t ∷ ts) = t.quantity +ℤ trade_total ts

pub trade_total-append :
    (ts us : List Trade) → trade_total (ts ++ us) ≡ trade_total ts +ℤ trade_total us
trade_total-append [] us = omega int_laws
trade_total-append (t ∷ ts) us = grind (int_laws, trade_total-append ts us)

-- The loop without its verdict.
abbrev pub state_of : Verdict → FillLoop
state_of (proceed s) = s
state_of (leave s) = s

-- What has been traded and what is still wanted.
abbrev pub accounted : FillLoop → ℤ
accounted s = trade_total s.trades +ℤ s.incoming.quantity

check_band-accounted :
    (price now : ℤ) (s : FillLoop) → accounted (state_of (check_band price now s)) ≡ accounted s
unfolding check_band
check_band-accounted price now s = ground arith

execute_fill-accounted :
    (f : ProposedFill) (now : ℤ) (s : FillLoop) → accounted (execute_fill f now s) ≡ accounted s
unfolding execute_fill
execute_fill-accounted f now s = rw (trade_total-append s.trades _) (omega int_laws)

-- Each fill moves its quantity from what is still wanted to what has been traded.
pub execute_fills-accounted :
    (fs : List ProposedFill) (now : ℤ) (s : FillLoop)
    → accounted (execute_fills fs now s) ≡ accounted s
unfolding execute_fills
execute_fills-accounted [] now s = refl
execute_fills-accounted (f ∷ fs) now s =
    let next = state_of (check_band f.fill_price now s) in
    ground (
      arith,
      check_band-accounted f.fill_price now s,
      execute_fill-accounted f now next,
      execute_fills-accounted fs now (execute_fill f now next),
    )

-- The trades are the first of the fills, in their order, at their prices and quantities.
abbrev pub Follows : List ProposedFill → List Trade → Type 0
Follows fs [] = Unit
Follows [] (t ∷ ts) = ⊥
Follows (f ∷ fs) (t ∷ ts) =
    (t.price ≡ f.fill_price) × (t.quantity ≡ f.fill_quantity) × Follows fs ts

pub check_band-trades :
    (price now : ℤ) (s : FillLoop) → (state_of (check_band price now s)).trades ≡ s.trades
unfolding check_band
check_band-trades price now s = ground arith

pub Verdict-cases :
    (v : Verdict) → ((s : FillLoop) × (v ≡ proceed s)) ⊎ ((s : FillLoop) × (v ≡ leave s))
Verdict-cases (proceed s) = inl (s, refl)
Verdict-cases (leave s) = inr (s, refl)

-- The trades of the loop are the first of the planned fills, in their order, each at the level's price
-- and for the planned quantity; the loop may stop early, but never skips or alters a fill.
pub execute_fills-Follows :
    (fs : List ProposedFill) (now : ℤ) (s : FillLoop)
    → (new : List Trade) × ((execute_fills fs now s).trades ≡ s.trades ++ new) × Follows fs new
unfolding execute_fills execute_fill
execute_fills-Follows [] now s = ([], ground (arith, append-nil s.trades), tt)
execute_fills-Follows (f ∷ fs) now s = elim (Verdict-cases (check_band f.fill_price now s)) [
  | inl (s', e) ↦
      let (new, trades, follows) = execute_fills-Follows fs now (execute_fill f now s') in
      let trade = make_trade f now s'.incoming s'.book in
      (
        trade ∷ new,
        ground
            (arith, check_band-trades f.fill_price now s, append_assoc s.trades (trade ∷ []) new),
        (refl, refl, follows),
      )
  | inr (s', e) ↦
      ([], ground (arith, append-nil s.trades, check_band-trades f.fill_price now s), tt)
]

check_band_id :
    (price now : ℤ) (s : FillLoop) → (state_of (check_band price now s)).incoming.id ≡ s.incoming.id
unfolding check_band
check_band_id price now s = ground arith

-- The loop works on one order.
pub execute_fills_id :
    (fs : List ProposedFill) (now : ℤ) (s : FillLoop)
    → (execute_fills fs now s).incoming.id ≡ s.incoming.id
unfolding execute_fills execute_fill
execute_fills_id [] now s = refl
execute_fills_id (f ∷ fs) now s =
    let next = state_of (check_band f.fill_price now s) in
    ground
      (arith, check_band_id f.fill_price now s, execute_fills_id fs now (execute_fill f now next))
