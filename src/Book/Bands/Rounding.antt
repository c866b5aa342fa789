-- ===== src/Book/Bands/Rounding.antt =====
-- The rounding of the limits of the price band (engine/src/book_levels.cpp).
use order_book_engine.Prelude.{
  ℕ, ◌+◌, ◌*◌, ◌≤◌, ◌<◌, ◌-◌, pos, ◌+ℤ◌, ◌-ℤ◌, ◌*ℤ◌, ◌/ℤ◌, ◌≤ℤ◌, ◌≡◌, ◌↔◌, arith, true,
}
use order_book_engine.Book.State.{Book}
use order_book_engine.Book.Bands.{lower_limit, upper_limit, within_band}

-- `p` is not below the lower limit exactly when 10000 p is at least reference (10000 - bps).
lower_limit_iff :
    (r s p : ℕ) → s ≤ 10000 → (lower_limit (pos r) (pos s) ≤ℤ pos p) ↔ (r * (10000 - s) ≤ 10000 * p)
unfolding lower_limit ◌+ℤ◌ ◌-ℤ◌ ◌*ℤ◌ ◌/ℤ◌
lower_limit_iff r s p h = ground arith

upper_limit_iff :
    (r s p : ℕ) → (pos p ≤ℤ upper_limit (pos r) (pos s)) ↔ (10000 * p ≤ r * (10000 + s))
unfolding upper_limit ◌+ℤ◌ ◌*ℤ◌ ◌/ℤ◌
upper_limit_iff r s p = ground arith

-- With a positive reference price and a band of less than 100 %, a price is within the band exactly
-- when it differs from the reference by no more than the band, in exact arithmetic: the rounding of
-- both limits to whole ticks lets in no price and shuts out none.
pub within_band-exact :
    (b : Book) (r s p : ℕ)
    → b.has_reference_price ≡ true
    → b.reference_price ≡ pos r
    → b.band_bps ≡ pos s
    → s < 10000
    → (within_band (pos p) b ≡ true)
      ↔ ((r * (10000 - s) ≤ 10000 * p) × (10000 * p ≤ r * (10000 + s)))
unfolding within_band
within_band-exact b r s p has reference bps h =
    ground (arith, lower_limit_iff r s p, upper_limit_iff r s p)
