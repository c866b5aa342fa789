-- ===== src/Book/Matching/Fairness.antt =====
-- The fills of plan_match (engine/src/book.cpp), each and in sum.
use order_book_engine.Prelude.{
  ℕ, ℤ, pos, ◌+ℤ◌, ◌-ℤ◌, ◌≤ℤ◌, min_ℤ, true, List, [], ◌∷◌, ◌++◌, ◌≡◌, ◌≢◌, arith, int_laws, All,
  All-append,
}
use order_book_engine.Types.{Order, Node, Level}
use order_book_engine.Levels.{deref}
use order_book_engine.Book.State.{Book}
use order_book_engine.Book.Matching.{
  ProposedFill, crosses, inside_collar, walk_queue, walk_side, opposing_levels, plan_match,
}

abbrev pub fill_total : List ProposedFill → ℤ
fill_total [] = pos 0
fill_total (f ∷ fs) = f.fill_quantity +ℤ fill_total fs

pub fill_total-append :
    (fs gs : List ProposedFill) → fill_total (fs ++ gs) ≡ fill_total fs +ℤ fill_total gs
fill_total-append [] gs = omega int_laws
fill_total-append (f ∷ fs) gs = grind (int_laws, fill_total-append fs gs)

-- A fill takes from an order of another owner no more than it has.
abbrev pub TakesFrom : List Node → ℕ → ProposedFill → Type 0
TakesFrom nodes owner f =
    let passive = (deref nodes f.passive_node).order in
    (passive.owner_id ≢ owner) × (f.fill_quantity ≤ℤ passive.quantity)

module _ (nodes : List Node) (owner : ℕ) (price : ℤ) where
  walk_queue-TakesFrom :
      (queue : List ℕ) (remaining : ℤ)
      → All
          (λ f. TakesFrom nodes owner f × (f.fill_price ≡ price))
          (walk_queue nodes owner price queue remaining).taken
  unfolding walk_queue
  walk_queue-TakesFrom [] remaining = tt
  walk_queue-TakesFrom (n ∷ ns) remaining =
      ground (
        arith,
        walk_queue-TakesFrom ns (remaining -ℤ min_ℤ remaining (deref nodes n).order.quantity),
      )

  pub walk_queue_remaining :
      (queue : List ℕ) (remaining : ℤ)
      → let walk = walk_queue nodes owner price queue remaining in
        walk.remaining +ℤ fill_total walk.taken ≡ remaining
  unfolding walk_queue
  walk_queue_remaining [] remaining = omega int_laws
  walk_queue_remaining (n ∷ ns) remaining = grind (
    int_laws,
    walk_queue_remaining ns (remaining -ℤ min_ℤ remaining (deref nodes n).order.quantity),
  )

  walk_queue_nonneg :
      (queue : List ℕ) (remaining : ℤ)
      → pos 0 ≤ℤ remaining
      → pos 0 ≤ℤ (walk_queue nodes owner price queue remaining).remaining
  unfolding walk_queue
  walk_queue_nonneg [] remaining h = h
  walk_queue_nonneg (n ∷ ns) remaining h =
      grind (
        int_laws,
        walk_queue_nonneg ns (remaining -ℤ min_ℤ remaining (deref nodes n).order.quantity),
      )

abbrev pub FairFill : Book → Order → ProposedFill → Type 0
FairFill b incoming f =
    (crosses incoming f.fill_price ≡ true)
    × (inside_collar b incoming f.fill_price ≡ true)
    × TakesFrom b.pool.nodes incoming.owner_id f

level-FairFill :
    (b : Book) (incoming : Order) (price : ℤ) (fs : List ProposedFill)
    → crosses incoming price ≡ true
    → inside_collar b incoming price ≡ true
    → All (λ f. TakesFrom b.pool.nodes incoming.owner_id f × (f.fill_price ≡ price)) fs
    → All (FairFill b incoming) fs
level-FairFill b incoming price [] crossing inside h = tt
level-FairFill b incoming price (f ∷ fs) crossing inside h = (
  (rw (h.0.1) crossing, rw (h.0.1) inside, h.0.0),
  level-FairFill b incoming price fs crossing inside h.1,
)

walk_side-FairFill :
    (b : Book) (incoming : Order) (ls : List Level) (remaining : ℤ)
    → All (FairFill b incoming) (walk_side b incoming ls remaining).fills
unfolding walk_side
walk_side-FairFill b incoming [] remaining = tt
walk_side-FairFill b incoming (l ∷ ls) remaining =
    let walk = walk_queue b.pool.nodes incoming.owner_id l.price l.queue remaining in
    let rest = walk_side b incoming ls walk.remaining in
    ground (
      arith,
      level-FairFill b incoming l.price walk.taken,
      walk_queue-TakesFrom b.pool.nodes incoming.owner_id l.price l.queue remaining,
      walk_side-FairFill b incoming ls walk.remaining,
      All-append (FairFill b incoming) walk.taken rest.fills,
    )

walk_side_total :
    (b : Book) (incoming : Order) (ls : List Level) (remaining : ℤ)
    → pos 0 ≤ℤ remaining
    → fill_total (walk_side b incoming ls remaining).fills ≤ℤ remaining
unfolding walk_side
walk_side_total b incoming [] remaining h = h
walk_side_total b incoming (l ∷ ls) remaining h =
    let walk = walk_queue b.pool.nodes incoming.owner_id l.price l.queue remaining in
    let rest = walk_side b incoming ls walk.remaining in
    grind (
      int_laws,
      walk_queue_remaining b.pool.nodes incoming.owner_id l.price l.queue remaining,
      walk_queue_nonneg b.pool.nodes incoming.owner_id l.price l.queue remaining h,
      walk_side_total b incoming ls walk.remaining,
      fill_total-append walk.taken rest.fills,
    )

-- Every planned fill is at a price that crosses the order and lies inside its collar, takes from an
-- order of another owner, and takes no more than that order has; and the fills of an order with a
-- non-negative quantity add up to no more than this quantity.
pub plan_match-FairFill :
    (b : Book) (incoming : Order)
    → pos 0 ≤ℤ incoming.quantity
    → let fills = (plan_match b incoming).fills in
      All (FairFill b incoming) fills × (fill_total fills ≤ℤ incoming.quantity)
unfolding plan_match
plan_match-FairFill b incoming h = (
  walk_side-FairFill b incoming (opposing_levels incoming.side b) incoming.quantity,
  walk_side_total b incoming (opposing_levels incoming.side b) incoming.quantity h,
)
