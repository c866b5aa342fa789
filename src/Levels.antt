-- ===== src/Levels.antt =====
-- One side of the book: engine/include/engine/pool.hpp (class NodePool) and the level operations
-- of engine/src/book_levels.cpp. A std::map of levels is the list of its levels in key order:
-- bids from the highest price, asks from the lowest.
pub mod Sides
pub mod Placing
pub mod Unlinking
use order_book_engine.Prelude.{
  ℕ, suc, ◌+◌, ◌-◌, ◌%◌, ◌^◌, ℤ, ◌+ℤ◌, ◌-ℤ◌, ◌==ℤ◌, ltb_ℤ, Bool, Option, none, some, List, [], ◌∷◌,
  ◌++◌, if◌then◌else◌, get_or, set, remove,
}
use order_book_engine.Types.{Side, buy, sell, Node, Level, empty_node}

-- The free list is threaded through `next` in the source; here it is a list, its head first.
pub record NodePool : Type 0 where
  pub nodes : List Node
  pub free : List ℕ

slots : ℕ → ℕ → List ℕ
slots first ℕ.zero = []
slots first (suc n) = first ∷ slots (suc first) n

empty_nodes : ℕ → List Node
empty_nodes ℕ.zero = []
empty_nodes (suc n) = empty_node ∷ empty_nodes n

unfoldable pub new_pool : ℕ → NodePool
unfolding slots empty_nodes
new_pool capacity = record { nodes = empty_nodes capacity; free = slots 0 capacity }

-- `*node`
abbrev pub deref : List Node → ℕ → Node
deref nodes n = get_or nodes n empty_node

abbrev acquire_from : List Node → List ℕ → Option (ℕ × NodePool)
acquire_from nodes [] = none
acquire_from nodes (n ∷ rest) = some (n, record { nodes = set nodes n empty_node; free = rest })

-- `none` for nullptr: the pool is exhausted.
unfoldable pub acquire : NodePool → Option (ℕ × NodePool)
acquire p = acquire_from p.nodes p.free

unfoldable pub release : ℕ → NodePool → NodePool
release n p = record p { free = n ∷ p.free }

-- The order of the map's keys on a side.
abbrev pub before : Side → ℤ → ℤ → Bool
before buy p q = ltb_ℤ q p
before sell p q = ltb_ℤ p q

abbrev pub count_mod : ℕ
count_mod = 2 ^ 32

abbrev pub new_level : ℤ → ℕ → ℤ → Level
new_level price n quantity = record {
  price = price;
  queue = n ∷ [];
  total_quantity = quantity;
  order_count = 1;
}

abbrev pub append_node : ℕ → ℤ → Level → Level
append_node n quantity l = record l {
  queue = l.queue ++ n ∷ [];
  total_quantity = l.total_quantity +ℤ quantity;
  order_count = (l.order_count + 1) % count_mod;
}

-- get_or_create_level, on the map of a side: `quantity` is that of the node's order.
unfoldable pub get_or_create_level : Side → ℤ → ℕ → ℤ → List Level → List Level
get_or_create_level side price n quantity [] = new_level price n quantity ∷ []
get_or_create_level side price n quantity (l ∷ ls) =
    if price ==ℤ l.price
    then append_node n quantity l ∷ ls
    else if before side price l.price
    then new_level price n quantity ∷ l ∷ ls
    else l ∷ get_or_create_level side price n quantity ls

abbrev pub unlink_node : ℕ → ℤ → Level → Level
unlink_node n quantity l = record l {
  queue = remove n l.queue;
  total_quantity = l.total_quantity -ℤ quantity;
  order_count = (l.order_count + count_mod - 1) % count_mod;
}

abbrev pub keep_or_erase : List ℕ → Level → List Level → List Level
keep_or_erase [] l ls = ls
keep_or_erase (n ∷ ns) l ls = l ∷ ls

-- unlink_and_maybe_erase_from_level, at the level of the given price.
unfoldable pub unlink_and_maybe_erase_from_level : ℤ → ℕ → ℤ → List Level → List Level
unlink_and_maybe_erase_from_level price n quantity [] = []
unlink_and_maybe_erase_from_level price n quantity (l ∷ ls) =
    if price ==ℤ l.price
    then keep_or_erase (remove n l.queue) (unlink_node n quantity l) ls
    else l ∷ unlink_and_maybe_erase_from_level price n quantity ls

-- `level->total_quantity -= by`
unfoldable pub reduce_level : ℤ → ℤ → List Level → List Level
reduce_level price by [] = []
reduce_level price by (l ∷ ls) =
    if price ==ℤ l.price
    then record l { total_quantity = l.total_quantity -ℤ by } ∷ ls
    else l ∷ reduce_level price by ls
