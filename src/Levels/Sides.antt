-- ===== src/Levels/Sides.antt =====
-- A side of the book as a map from prices to queues: what get_or_create_level and
-- unlink_and_maybe_erase_from_level do to it (engine/src/book_levels.cpp).
use order_book_engine.Prelude.{
  ℕ, ◌%◌, ℤ, pos, ◌+ℤ◌, ◌==ℤ◌, eq_of_parts, true, false, List, [], ◌∷◌, ◌++◌, ◌≡◌, refl, ◌<◌, inl,
  inr, arith, int_laws, if◌then◌else◌, length, All, Bool-cases,
}
use order_book_engine.Types.{Side, buy, sell, Node, Level}
use order_book_engine.Levels.{deref, before, count_mod, get_or_create_level}

-- The nodes that rest at a price, none where there is no level.
unfoldable pub queue_at : ℤ → List Level → List ℕ
queue_at price [] = []
queue_at price (l ∷ ls) = if price ==ℤ l.price then l.queue else queue_at price ls

abbrev pub Behind : Side → ℤ → Level → Type 0
Behind side price l = before side price l.price ≡ true

abbrev pub IsSorted : Side → List Level → Type 0
IsSorted side [] = Unit
IsSorted side (l ∷ ls) = All (Behind side l.price) ls × IsSorted side ls

abbrev pub quantity_in : List Node → List ℕ → ℤ
quantity_in nodes [] = pos 0
quantity_in nodes (n ∷ ns) = (deref nodes n).order.quantity +ℤ quantity_in nodes ns

-- A level holds at least one node, and its totals are those of its nodes.
pub record IsLevel (nodes : List Node) (l : Level) : Type 0 where
  pub filled : 0 < length l.queue
  pub total : l.total_quantity ≡ quantity_in nodes l.queue
  pub count : l.order_count ≡ length l.queue % count_mod

pub record IsSide (side : Side) (nodes : List Node) (ls : List Level) : Type 0 where
  pub sorted : IsSorted side ls
  pub levels : All (IsLevel nodes) ls

pub before_trans :
    (side : Side) (p q r : ℤ)
    → before side p q ≡ true
    → before side q r ≡ true
    → before side p r ≡ true
before_trans buy p q r h k = ground arith
before_trans sell p q r h k = ground arith

pub before_total :
    (side : Side) (p q : ℤ) → (p ==ℤ q) ≡ false → before side p q ≡ false → before side q p ≡ true
before_total buy p q h k = ground arith
before_total sell p q h k = ground arith

pub Behind-all :
    (side : Side) (p q : ℤ) (ls : List Level)
    → before side p q ≡ true
    → All (Behind side q) ls
    → All (Behind side p) ls
Behind-all side p q [] h k = tt
Behind-all side p q (l ∷ ls) h k =
    (before_trans side p q l.price h k.0, Behind-all side p q ls h k.1)

-- Past the levels of a side no level has its price.
pub queue_at-Behind :
    (side : Side) (p : ℤ) (ls : List Level) → All (Behind side p) ls → queue_at p ls ≡ []
unfolding queue_at
queue_at-Behind side p [] h = refl
queue_at-Behind buy p (l ∷ ls) h = ground (arith, queue_at-Behind buy p ls h.1)
queue_at-Behind sell p (l ∷ ls) h = ground (arith, queue_at-Behind sell p ls h.1)

pub quantity_in-append :
    (nodes : List Node) (q : List ℕ) (n : ℕ)
    → quantity_in nodes (q ++ n ∷ []) ≡ quantity_in nodes q +ℤ (deref nodes n).order.quantity
quantity_in-append nodes [] n = omega int_laws
quantity_in-append nodes (m ∷ ms) n = grind (int_laws, quantity_in-append nodes ms n)

-- The queues after an order has come to rest.
pub queue_at-get_or_create_level :
    (side : Side) (price p : ℤ) (n : ℕ) (quantity : ℤ) (ls : List Level)
    → IsSorted side ls
    → queue_at p (get_or_create_level side price n quantity ls)
      ≡ (if p ==ℤ price then queue_at p ls ++ n ∷ [] else queue_at p ls)
unfolding queue_at get_or_create_level
queue_at-get_or_create_level side price p n quantity [] h = ground arith
queue_at-get_or_create_level side price p n quantity (l ∷ ls) h =
    elim (Bool-cases (price ==ℤ l.price)) [
      | inl same ↦ ground arith
      | inr differs ↦ elim (Bool-cases (before side price l.price)) [
        | inl first ↦
            let absent : queue_at price (l ∷ ls) ≡ [] =
              queue_at-Behind side price (l ∷ ls)
                (first, Behind-all side price l.price ls first h.0) in
            ground (arith, absent, eq_of_parts p price)
        | inr later ↦ ground (arith, queue_at-get_or_create_level side price p n quantity ls h.1)
      ]
    ]
