-- ===== src/Book/Settling/Crossing.antt =====
-- When the remainder of a walk that stopped at the band crosses the book (engine/src/book.cpp).
use order_book_engine.Prelude.{
  ℕ, ℤ, pos, ◌<ℤ◌, leb_ℤ, min_ℤ, is_some, is_some-value, some, List, [], ◌∷◌, ◌≡◌, true, false,
  ◌||◌, arith,
}
use order_book_engine.Types.{Side, OrderType, Order, RejectReason, Level}
use order_book_engine.Levels.{NodePool, acquire, get_or_create_level}
use order_book_engine.Book.State.{Book, emit, best_ask, first_price}
use order_book_engine.Book.Queries.{crossed_prices, is_crossed}
use order_book_engine.Book.Bands.{upper_band_price}
use order_book_engine.Book.Resting.{place_node}
use order_book_engine.Book.Settling.{rest_in, settle_at_band}

-- The best bid after an order comes to rest among the bids.
best_after :
    (price ask : ℤ) (n : ℕ) (quantity : ℤ) (ls : List Level)
    → crossed_prices (first_price (get_or_create_level Side.buy price n quantity ls)) (some ask)
      ≡ leb_ℤ ask price || crossed_prices (first_price ls) (some ask)
unfolding get_or_create_level
best_after price ask n quantity [] = ground arith
best_after price ask n quantity (l ∷ ls) = ground arith

abbrev pub limit_buy : ℕ → ℕ → ℤ → ℤ → ℤ → Order
limit_buy id owner price quantity filled = record {
  id = id;
  owner_id = owner;
  side = Side.buy;
  type = OrderType.limit;
  price = some price;
  quantity = quantity;
  filled = filled;
}

place_remainder_crossed :
    (id owner : ℕ) (price quantity filled ask now : ℤ) (why : RejectReason) (b : Book) (n : ℕ)
    (pool : NodePool)
    → best_ask b ≡ some ask
    → is_crossed b ≡ false
    → acquire b.pool ≡ some (n, pool)
    → pos 0 <ℤ quantity
    → pos 0 <ℤ price
    → pos 0 <ℤ upper_band_price b
    → is_crossed (settle_at_band (limit_buy id owner price quantity filled) why now b).book
      ≡ leb_ℤ ask (min_ℤ price (upper_band_price b))
unfolding settle_at_band is_crossed best_ask rest_in emit place_node
place_remainder_crossed id owner price quantity filled ask now why b n pool e calm found h k m =
    ground (arith, best_after (min_ℤ price (upper_band_price b)) ask n quantity b.bids)

-- After a walk that stopped at the band, the remainder of a limit buy order that can rest crosses the
-- book exactly when the best ask that is left is at most the lower of the order's price and the
-- band.
pub settle_at_band_crossed :
    (id owner : ℕ) (price quantity filled ask now : ℤ) (why : RejectReason) (b : Book)
    → best_ask b ≡ some ask
    → is_crossed b ≡ false
    → is_some (acquire b.pool) ≡ true
    → pos 0 <ℤ quantity
    → pos 0 <ℤ price
    → pos 0 <ℤ upper_band_price b
    → is_crossed (settle_at_band (limit_buy id owner price quantity filled) why now b).book
      ≡ leb_ℤ ask (min_ℤ price (upper_band_price b))
settle_at_band_crossed id owner price quantity filled ask now why b e calm found h k m =
    let ((n, pool), taken) = is_some-value (acquire b.pool) found in
    place_remainder_crossed id owner price quantity filled ask now why b n pool e calm taken h k m
