-- ===== src/Book/Resting.antt =====
-- Putting orders on the book and taking them off: unlink_and_maybe_erase_level, reduce_resting
-- (engine/src/book_levels.cpp), remove_resting and the resting of a remainder (engine/src/book.cpp).
pub mod Untouched
use order_book_engine.Prelude.{ℕ, ℤ, ◌-ℤ◌, Option, none, some, List, set, insert, erase}
use order_book_engine.Types.{Side, Order, Node, Level}
use order_book_engine.Levels.{
  deref, release, get_or_create_level, unlink_and_maybe_erase_from_level, reduce_level,
}
use order_book_engine.Book.State.{Book, levels, with_levels}

abbrev pub node_at : Book → ℕ → Node
node_at b n = deref b.pool.nodes n

abbrev pub write_node : ℕ → Node → Book → Book
write_node n node b = record b { pool = record (b.pool) { nodes = set b.pool.nodes n node } }

-- The level that a node rests in is the one at `node->level`; without one the source asserts.
abbrev pub at_level : Side → Option ℤ → (ℤ → List Level → List Level) → Book → Book
at_level side none change b = b
at_level side (some price) change b = with_levels side (change price (levels side b)) b

unfoldable pub reduce_resting : ℕ → ℤ → Book → Book
reduce_resting n by b =
    let node = node_at b n in
    let order = node.order in
    write_node n (record node { order = record order { quantity = order.quantity -ℤ by } })
      (at_level order.side node.level (λ price. reduce_level price by) b)

unfoldable pub unlink_and_maybe_erase_level : ℕ → Book → Book
unlink_and_maybe_erase_level n b =
    let node = node_at b n in
    let order = node.order in
    write_node n (record node { level = none })
      (at_level order.side node.level
        (λ price. unlink_and_maybe_erase_from_level price n order.quantity) b)

unfoldable pub remove_resting : ℕ → Book → Book
unfolding unlink_and_maybe_erase_level
remove_resting n b =
    let order = (node_at b n).order in
    let unlinked = unlink_and_maybe_erase_level n b in
    record unlinked { id_index = erase order.id unlinked.id_index; pool = release n unlinked.pool }

-- `node->order = incoming; get_or_create_level(side, price, node); id_index_[incoming.id] = node`
unfoldable pub place_node : ℕ → Order → ℤ → Book → Book
place_node n incoming price b =
    let placed = write_node n (record { order = incoming; level = some price }) b in
    with_levels incoming.side
      (get_or_create_level incoming.side price n incoming.quantity (levels incoming.side b))
      (record placed { id_index = insert incoming.id n b.id_index })
