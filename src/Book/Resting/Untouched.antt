-- ===== src/Book/Resting/Untouched.antt =====
-- What moving orders on and off the book leaves alone (engine/src/book_levels.cpp,
-- engine/src/book.cpp): all but the levels, the nodes and the index.
use order_book_engine.Prelude.{ℕ, ℤ, Option, none, some, List, [], ◌≡◌, refl, ap, erase}
use order_book_engine.Types.{Side, Level}
use order_book_engine.Book.State.{Book, with_levels}
use order_book_engine.Book.Resting.{
  node_at, at_level, reduce_resting, unlink_and_maybe_erase_level, remove_resting,
}

-- The book with its levels, nodes and index forgotten.
abbrev pub off_book : Book → Book
off_book b = record b {
  bids = [];
  asks = [];
  pool = record { nodes = []; free = [] };
  id_index = [];
}

with_levels-off_book :
    (side : Side) (ls : List Level) (b : Book) → off_book (with_levels side ls b) ≡ off_book b
with_levels-off_book Side.buy ls b = refl
with_levels-off_book Side.sell ls b = refl

at_level-off_book :
    (side : Side) (level : Option ℤ) (change : ℤ → List Level → List Level) (b : Book)
    → off_book (at_level side level change b) ≡ off_book b
at_level-off_book side none change b = refl
at_level-off_book side (some price) change b = with_levels-off_book side _ b

pub reduce_resting-off_book :
    (n : ℕ) (by : ℤ) (b : Book) → off_book (reduce_resting n by b) ≡ off_book b
unfolding reduce_resting
reduce_resting-off_book n by b = at_level-off_book (node_at b n).order.side (node_at b n).level _ b

pub remove_resting-off_book : (n : ℕ) (b : Book) → off_book (remove_resting n b) ≡ off_book b
unfolding remove_resting unlink_and_maybe_erase_level
remove_resting-off_book n b = at_level-off_book (node_at b n).order.side (node_at b n).level _ b

-- The index, which only a removal changes.
with_levels-id_index :
    (side : Side) (ls : List Level) (b : Book) → (with_levels side ls b).id_index ≡ b.id_index
with_levels-id_index Side.buy ls b = refl
with_levels-id_index Side.sell ls b = refl

at_level-id_index :
    (side : Side) (level : Option ℤ) (change : ℤ → List Level → List Level) (b : Book)
    → (at_level side level change b).id_index ≡ b.id_index
at_level-id_index side none change b = refl
at_level-id_index side (some price) change b = with_levels-id_index side _ b

pub reduce_resting-id_index :
    (n : ℕ) (by : ℤ) (b : Book) → (reduce_resting n by b).id_index ≡ b.id_index
unfolding reduce_resting
reduce_resting-id_index n by b = at_level-id_index (node_at b n).order.side (node_at b n).level _ b

pub remove_resting-id_index :
    (n : ℕ) (b : Book) → (remove_resting n b).id_index ≡ erase (node_at b n).order.id b.id_index
unfolding remove_resting unlink_and_maybe_erase_level
remove_resting-id_index n b =
    ap (λ m. erase (node_at b n).order.id m)
      (at_level-id_index (node_at b n).order.side (node_at b n).level _ b)
