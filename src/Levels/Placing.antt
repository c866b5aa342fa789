-- ===== src/Levels/Placing.antt =====
-- What get_or_create_level does to a side of the book (engine/src/book_levels.cpp).
use order_book_engine.Prelude.{
  ℕ, ℤ, ◌+ℤ◌, ◌==ℤ◌, true, List, [], ◌∷◌, ◌++◌, ◌≡◌, refl, inl, inr, ap, sym, pos_part, neg_part,
  ◌∙◌, arith, int_laws, if◌then◌else◌, All, Bool-cases, length-append,
}
use order_book_engine.Types.{Side, Node, Level}
use order_book_engine.Levels.{deref, before, new_level, append_node, get_or_create_level}
use order_book_engine.Levels.Sides.{
  Behind, IsSorted, IsLevel, IsSide, quantity_in, queue_at, before_total, Behind-all,
  quantity_in-append, queue_at-get_or_create_level,
}

placed-Behind :
    (side : Side) (p price : ℤ) (n : ℕ) (quantity : ℤ) (ls : List Level)
    → before side p price ≡ true
    → All (Behind side p) ls
    → All (Behind side p) (get_or_create_level side price n quantity ls)
unfolding get_or_create_level
placed-Behind side p price n quantity [] h k = (h, tt)
placed-Behind side p price n quantity (l ∷ ls) h k = elim (Bool-cases (price ==ℤ l.price)) [
  | inl same ↦ rw same k
  | inr differs ↦ elim (Bool-cases (before side price l.price)) [
    | inl first ↦ rw (differs, first) (h, k)
    | inr later ↦ rw (differs, later) (k.0, placed-Behind side p price n quantity ls h k.1)
  ]
]

placed-IsSorted :
    (side : Side) (price : ℤ) (n : ℕ) (quantity : ℤ) (ls : List Level)
    → IsSorted side ls
    → IsSorted side (get_or_create_level side price n quantity ls)
unfolding get_or_create_level
placed-IsSorted side price n quantity [] h = (tt, tt)
placed-IsSorted side price n quantity (l ∷ ls) h = elim (Bool-cases (price ==ℤ l.price)) [
  | inl same ↦ rw same h
  | inr differs ↦ elim (Bool-cases (before side price l.price)) [
    | inl first ↦ rw (differs, first) ((first, Behind-all side price l.price ls first h.0), h)
    | inr later ↦
        let after = before_total side price l.price differs later in
        rw (differs, later)
          (
            placed-Behind side l.price price n quantity ls after h.0,
            placed-IsSorted side price n quantity ls h.1,
          )
  ]
]

append_node-IsLevel :
    (nodes : List Node) (n : ℕ) (quantity : ℤ) (l : Level)
    → (deref nodes n).order.quantity ≡ quantity
    → IsLevel nodes l
    → IsLevel nodes (append_node n quantity l)
append_node-IsLevel nodes n quantity l e h = record {
  filled = omega (arith, length-append l.queue (n ∷ []));
  total =
      ap (λ t. t +ℤ quantity) h.total
      ∙ ap (λ q. quantity_in nodes l.queue +ℤ q) (sym e)
      ∙ sym (quantity_in-append nodes l.queue n);
  count = omega (arith, h.count, length-append l.queue (n ∷ []));
}

new_level-IsLevel :
    (nodes : List Node) (price : ℤ) (n : ℕ) (quantity : ℤ)
    → (deref nodes n).order.quantity ≡ quantity
    → IsLevel nodes (new_level price n quantity)
new_level-IsLevel nodes price n quantity e = record {
  filled = omega arith;
  total = omega (int_laws, ap pos_part e, ap neg_part e);
  count = omega arith;
}

placed-levels :
    (side : Side) (nodes : List Node) (price : ℤ) (n : ℕ) (quantity : ℤ) (ls : List Level)
    → (deref nodes n).order.quantity ≡ quantity
    → All (IsLevel nodes) ls
    → All (IsLevel nodes) (get_or_create_level side price n quantity ls)
unfolding get_or_create_level
placed-levels side nodes price n quantity [] e h = (new_level-IsLevel nodes price n quantity e, tt)
placed-levels side nodes price n quantity (l ∷ ls) e h = elim (Bool-cases (price ==ℤ l.price)) [
  | inl same ↦ rw same (append_node-IsLevel nodes n quantity l e h.0, h.1)
  | inr differs ↦ elim (Bool-cases (before side price l.price)) [
    | inl first ↦ rw (differs, first) (new_level-IsLevel nodes price n quantity e, h)
    | inr later ↦ rw (differs, later) (h.0, placed-levels side nodes price n quantity ls e h.1)
  ]
]

-- When an order comes to rest, a side that is sorted, without empty levels and with the right totals,
-- stays so; the order's node is the last at its price, and the queues at all other prices stay.
pub get_or_create_level-IsSide :
    (side : Side) (nodes : List Node) (price : ℤ) (n : ℕ) (ls : List Level)
    → IsSide side nodes ls
    → let placed = get_or_create_level side price n (deref nodes n).order.quantity ls in
      IsSide side nodes placed
      × ((p : ℤ)
          → queue_at p placed ≡ (if p ==ℤ price then queue_at p ls ++ n ∷ [] else queue_at p ls))
get_or_create_level-IsSide side nodes price n ls h =
    let quantity = (deref nodes n).order.quantity in
    (
      record {
        sorted = placed-IsSorted side price n quantity ls h.sorted;
        levels = placed-levels side nodes price n quantity ls refl h.levels;
      },
      λ p. queue_at-get_or_create_level side price p n quantity ls h.sorted,
    )
