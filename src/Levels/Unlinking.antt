-- ===== src/Levels/Unlinking.antt =====
-- What unlink_and_maybe_erase_from_level does to a side of the book
-- (engine/src/book_levels.cpp).
use order_book_engine.Prelude.{
  ℕ, suc, ◌<◌, ℤ, ◌+ℤ◌, ◌-ℤ◌, ◌==ℤ◌, eq_of_parts, List, [], ◌∷◌, ◌≡◌, refl, ◌⊎◌, inl, inr, ap,
  +ℤ-cancel, ◌∙◌, arith, int_laws, if◌then◌else◌, length, remove, All, Bool-cases, ◌==◌,
}
use order_book_engine.Types.{Side, Node, Level}
use order_book_engine.Levels.{deref, unlink_node, keep_or_erase, unlink_and_maybe_erase_from_level}
use order_book_engine.Levels.Sides.{
  Behind, IsSorted, IsLevel, IsSide, quantity_in, queue_at, queue_at-Behind,
}

abbrev pub Holds : ℕ → List ℕ → Type 0
Holds n [] = ⊥
Holds n (x ∷ xs) = (n ≡ x) ⊎ Holds n xs

length-remove : (n : ℕ) (q : List ℕ) → Holds n q → length q ≡ suc (length (remove n q))
unfolding remove
length-remove n [] h = elim h [ ]
length-remove n (x ∷ xs) (inl e) = ground arith
length-remove n (x ∷ xs) (inr h) = ground (arith, length-remove n xs h)

quantity_in-remove :
    (nodes : List Node) (n : ℕ) (q : List ℕ)
    → Holds n q
    → quantity_in nodes q ≡ (deref nodes n).order.quantity +ℤ quantity_in nodes (remove n q)
unfolding remove
quantity_in-remove nodes n [] h = elim h [ ]
quantity_in-remove nodes n (x ∷ xs) (inl e) = ground arith
quantity_in-remove nodes n (x ∷ xs) (inr h) = elim (Bool-cases (n == x)) [
  | inl same ↦ ground arith
  | inr other ↦ rw other (grind (int_laws, quantity_in-remove nodes n xs h))
]

unlink_node-IsLevel :
    (nodes : List Node) (n : ℕ) (l : Level)
    → Holds n l.queue
    → 0 < length (remove n l.queue)
    → IsLevel nodes l
    → IsLevel nodes (unlink_node n (deref nodes n).order.quantity l)
unlink_node-IsLevel nodes n l member more h = record {
  filled = more;
  total =
      let quantity = (deref nodes n).order.quantity in
      ap (λ t. t -ℤ quantity) (h.total ∙ quantity_in-remove nodes n l.queue member)
      ∙ +ℤ-cancel quantity (quantity_in nodes (remove n l.queue));
  count = omega (arith, h.count, length-remove n l.queue member);
}

-- A level that loses a node stays with the others, or leaves none.
kept_or_erased-levels :
    (nodes : List Node) (q : List ℕ) (l : Level) (ls : List Level)
    → (0 < length q → IsLevel nodes l)
    → All (IsLevel nodes) ls
    → All (IsLevel nodes) (keep_or_erase q l ls)
kept_or_erased-levels nodes [] l ls f h = h
kept_or_erased-levels nodes (x ∷ xs) l ls f h = (f (omega arith), h)

kept_or_erased-IsSorted :
    (side : Side) (q : List ℕ) (l : Level) (ls : List Level)
    → IsSorted side (l ∷ ls)
    → IsSorted side (keep_or_erase q l ls)
kept_or_erased-IsSorted side [] l ls h = h.1
kept_or_erased-IsSorted side (x ∷ xs) l ls h = h

kept_or_erased-Behind :
    (side : Side) (p : ℤ) (q : List ℕ) (l : Level) (ls : List Level)
    → All (Behind side p) (l ∷ ls)
    → All (Behind side p) (keep_or_erase q l ls)
kept_or_erased-Behind side p [] l ls h = h.1
kept_or_erased-Behind side p (x ∷ xs) l ls h = h

unlinked-Behind :
    (side : Side) (p price : ℤ) (n : ℕ) (quantity : ℤ) (ls : List Level)
    → All (Behind side p) ls
    → All (Behind side p) (unlink_and_maybe_erase_from_level price n quantity ls)
unfolding unlink_and_maybe_erase_from_level
unlinked-Behind side p price n quantity [] h = tt
unlinked-Behind side p price n quantity (l ∷ ls) h = elim (Bool-cases (price ==ℤ l.price)) [
  | inl same ↦
      rw same (kept_or_erased-Behind side p (remove n l.queue) (unlink_node n quantity l) ls h)
  | inr differs ↦ rw differs (h.0, unlinked-Behind side p price n quantity ls h.1)
]

unlinked-IsSorted :
    (side : Side) (price : ℤ) (n : ℕ) (quantity : ℤ) (ls : List Level)
    → IsSorted side ls
    → IsSorted side (unlink_and_maybe_erase_from_level price n quantity ls)
unfolding unlink_and_maybe_erase_from_level
unlinked-IsSorted side price n quantity [] h = tt
unlinked-IsSorted side price n quantity (l ∷ ls) h = elim (Bool-cases (price ==ℤ l.price)) [
  | inl same ↦
      rw same (kept_or_erased-IsSorted side (remove n l.queue) (unlink_node n quantity l) ls h)
  | inr differs ↦ rw differs (
    unlinked-Behind side l.price price n quantity ls h.0,
    unlinked-IsSorted side price n quantity ls h.1,
  )
]

unlinked-levels :
    (nodes : List Node) (price : ℤ) (n : ℕ) (ls : List Level)
    → Holds n (queue_at price ls)
    → All (IsLevel nodes) ls
    → All
        (IsLevel nodes)
        (unlink_and_maybe_erase_from_level price n (deref nodes n).order.quantity ls)
unfolding unlink_and_maybe_erase_from_level queue_at
unlinked-levels nodes price n [] member h = tt
unlinked-levels nodes price n (l ∷ ls) member h = elim (Bool-cases (price ==ℤ l.price)) [
  | inl same ↦
      let quantity = (deref nodes n).order.quantity in
      let here : Holds n l.queue = rw same at member in
      rw same (
        kept_or_erased-levels nodes (remove n l.queue) (unlink_node n quantity l) ls
          (λ more. unlink_node-IsLevel nodes n l here more h.0) h.1)
  | inr differs ↦
      let there : Holds n (queue_at price ls) = rw differs at member in
      rw differs (h.0, unlinked-levels nodes price n ls there h.1)
]

-- What is found at a price after the level there has lost a node.
queue_at-kept_or_erased :
    (p : ℤ) (q : List ℕ) (l : Level) (ls : List Level)
    → l.queue ≡ q
    → queue_at l.price ls ≡ []
    → queue_at p (keep_or_erase q l ls) ≡ (if p ==ℤ l.price then q else queue_at p ls)
unfolding queue_at
queue_at-kept_or_erased p [] l ls e absent = ground (arith, eq_of_parts p l.price)
queue_at-kept_or_erased p (x ∷ xs) l ls e absent = ground arith

queue_at-unlink :
    (side : Side) (p price : ℤ) (n : ℕ) (quantity : ℤ) (ls : List Level)
    → IsSorted side ls
    → queue_at p (unlink_and_maybe_erase_from_level price n quantity ls)
      ≡ (if p ==ℤ price then remove n (queue_at p ls) else queue_at p ls)
unfolding queue_at unlink_and_maybe_erase_from_level remove
queue_at-unlink side p price n quantity [] h = ground arith
queue_at-unlink side p price n quantity (l ∷ ls) h = elim (Bool-cases (price ==ℤ l.price)) [
  | inl same ↦
      let left = unlink_node n quantity l in
      ground (
        arith,
        eq_of_parts price l.price,
        queue_at-kept_or_erased p (remove n l.queue) left ls refl
            (queue_at-Behind side l.price ls h.0),
      )
  | inr differs ↦
      ground (arith, eq_of_parts p price, queue_at-unlink side p price n quantity ls h.1)
]

-- When an order leaves the book, a side that is sorted, without empty levels and with the right
-- totals, stays so: the level goes with its last order. The node is taken out of the queue at its
-- price, and the queues at all other prices stay.
pub unlink-IsSide :
    (side : Side) (nodes : List Node) (price : ℤ) (n : ℕ) (ls : List Level)
    → IsSide side nodes ls
    → Holds n (queue_at price ls)
    → let left = unlink_and_maybe_erase_from_level price n (deref nodes n).order.quantity ls in
      IsSide side nodes left
      × ((p : ℤ)
          → queue_at p left ≡ (if p ==ℤ price then remove n (queue_at p ls) else queue_at p ls))
unlink-IsSide side nodes price n ls h member =
    let quantity = (deref nodes n).order.quantity in
    (
      record {
        sorted = unlinked-IsSorted side price n quantity ls h.sorted;
        levels = unlinked-levels nodes price n ls member h.levels;
      },
      λ p. queue_at-unlink side p price n quantity ls h.sorted,
    )
