-- ===== src/Book/Bands.antt =====
-- The price band and the collar: lower_limit, upper_limit and within_band
-- (engine/src/book_levels.cpp, engine/include/engine/book.hpp).
pub mod Rounding
use order_book_engine.Prelude.{
  ℤ, pos, ◌+ℤ◌, ◌-ℤ◌, ◌*ℤ◌, ◌/ℤ◌, leb_ℤ, Bool, true, ◌&&◌, if◌then◌else◌,
}
use order_book_engine.Book.State.{Book}

unfoldable pub lower_limit : ℤ → ℤ → ℤ
lower_limit reference bps = (reference *ℤ (pos 10000 -ℤ bps) +ℤ pos 9999) /ℤ 10000

unfoldable pub upper_limit : ℤ → ℤ → ℤ
upper_limit reference bps = reference *ℤ (pos 10000 +ℤ bps) /ℤ 10000

abbrev pub lower_band_price : Book → ℤ
lower_band_price b = lower_limit b.reference_price b.band_bps

abbrev pub upper_band_price : Book → ℤ
upper_band_price b = upper_limit b.reference_price b.band_bps

unfoldable pub within_band : ℤ → Book → Bool
within_band p b =
    if b.has_reference_price
    then leb_ℤ (lower_band_price b) p && leb_ℤ p (upper_band_price b)
    else true
