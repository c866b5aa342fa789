-- ===== src/Tests/Scenarios.antt =====
-- Runs of the model on small inputs.
use order_book_engine.Prelude.{pos, some, true, ◌≡◌, refl}
use order_book_engine.Types.{buy}
use order_book_engine.Book.State.{best_bid, best_ask}
use order_book_engine.Book.Queries.{is_crossed}
use order_book_engine.Book.Cascade.{add_order}
use order_book_engine.Tests.Data.{engine, limit_order, offers, far_below}

offers_best : best_ask offers ≡ some (pos 100)
unfolding engine
offers_best = refl

-- The grace print at 50 stops before 55, and the remainder rests at 110: the book is crossed.
sweep_crosses :
    let b = (add_order (limit_order 7 9 buy 200 20) (pos 6) far_below).0 in
    (best_bid b ≡ some (pos 110)) × (best_ask b ≡ some (pos 55)) × (is_crossed b ≡ true)
unfolding engine is_crossed
sweep_crosses = (refl, refl, refl)
