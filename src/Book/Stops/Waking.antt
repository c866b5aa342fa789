-- ===== src/Book/Stops/Waking.antt =====
-- Which stops a sweep of trades wakes, and in which order they fire (engine/src/stops.cpp).
use mathlib.Core.List.{Perm}
use mathlib.Core.List.Perm
use order_book_engine.Prelude.{
  ℕ, ◌≤◌, ℤ, ltb_ℤ, leb_ℤ, Bool, true, false, [], ◌∷◌, ◌++◌, ◌≡◌, refl, inl, inr, arith,
  if◌then◌else◌, All, Bool-cases, ltb, sym,
}
use order_book_engine.Types.{StopOrder}
use order_book_engine.Book.State.{Book, StopMap}
use order_book_engine.Book.Stops.{
  Woken, split_sells, split_buys, with_priority, insert_by_priority, sort_by_priority, stops_of,
  wake_stops,
}

-- A map of stops is ordered by the stop price.
abbrev pub IsOrdered : StopMap → Type 0
IsOrdered [] = Unit
IsOrdered (e ∷ m) = All (λ f. leb_ℤ (e.0).0 (f.0).0 ≡ true) m × IsOrdered m

-- The stops whose price passes a test, in order.
abbrev pub priced : (ℤ → Bool) → StopMap → StopMap
priced test [] = []
priced test (e ∷ m) = if test ((e.0).0) then e ∷ priced test m else priced test m

abbrev pub IsAscending : Woken → Type 0
IsAscending [] = Unit
IsAscending (w ∷ ws) = All (λ v. w.0 ≤ v.0) ws × IsAscending ws

-- Past the first price that a trade at `low` wakes, it wakes all.
sells_behind :
    (low price : ℤ) (m : StopMap)
    → ltb_ℤ price low ≡ false
    → All (λ f. leb_ℤ price (f.0).0 ≡ true) m
    → (priced (λ p. ltb_ℤ p low) m ≡ []) × (priced (λ p. leb_ℤ low p) m ≡ m)
sells_behind low price [] h k = (refl, refl)
sells_behind low price (f ∷ m) h k = ground (arith, sells_behind low price m h k.1)

split_sells-priced :
    (low : ℤ) (m : StopMap)
    → IsOrdered m
    → let (kept, woken) = split_sells low m in
      (kept ≡ priced (λ p. ltb_ℤ p low) m) × (woken ≡ priced (λ p. leb_ℤ low p) m)
split_sells-priced low [] h = (refl, refl)
split_sells-priced low (e ∷ m) h = elim (Bool-cases (ltb_ℤ ((e.0).0) low)) [
  | inl below ↦ ground (arith, split_sells-priced low m h.1)
  | inr above ↦ ground (arith, sells_behind low ((e.0).0) m above h.0)
]

buys_behind :
    (high price : ℤ) (m : StopMap)
    → leb_ℤ price high ≡ false
    → All (λ f. leb_ℤ price (f.0).0 ≡ true) m
    → (priced (λ p. ltb_ℤ high p) m ≡ m) × (priced (λ p. leb_ℤ p high) m ≡ [])
buys_behind high price [] h k = (refl, refl)
buys_behind high price (f ∷ m) h k = ground (arith, buys_behind high price m h k.1)

split_buys-priced :
    (high : ℤ) (m : StopMap)
    → IsOrdered m
    → let (kept, woken) = split_buys high m in
      (kept ≡ priced (λ p. ltb_ℤ high p) m) × (woken ≡ priced (λ p. leb_ℤ p high) m)
split_buys-priced high [] h = (refl, refl)
split_buys-priced high (e ∷ m) h = elim (Bool-cases (leb_ℤ ((e.0).0) high)) [
  | inl below ↦ ground (arith, split_buys-priced high m h.1)
  | inr above ↦ ground (arith, buys_behind high ((e.0).0) m above h.0)
]

insert_by_priority-Perm : (e : ℕ × StopOrder) (ws : Woken) → Perm (insert_by_priority e ws) (e ∷ ws)
unfolding insert_by_priority
insert_by_priority-Perm e [] = Perm.refl (e ∷ [])
insert_by_priority-Perm e (w ∷ ws) = elim (Bool-cases (ltb w.0 e.0)) [
  | inl later ↦
      rw later (Perm.trans (Perm.cons w (insert_by_priority-Perm e ws)) (Perm.swap e w ws))
  | inr here ↦ rw here (Perm.refl (e ∷ w ∷ ws))
]

sort_by_priority-Perm : (ws : Woken) → Perm (sort_by_priority ws) ws
unfolding sort_by_priority
sort_by_priority-Perm [] = Perm.refl []
sort_by_priority-Perm (w ∷ ws) =
    Perm.trans (insert_by_priority-Perm w (sort_by_priority ws))
      (Perm.cons w (sort_by_priority-Perm ws))

inserted-All :
    (p : ℕ) (e : ℕ × StopOrder) (ws : Woken)
    → p ≤ e.0
    → All (λ v. p ≤ v.0) ws
    → All (λ v. p ≤ v.0) (insert_by_priority e ws)
unfolding insert_by_priority
inserted-All p e [] h k = (h, tt)
inserted-All p e (w ∷ ws) h k = elim (Bool-cases (ltb w.0 e.0)) [
  | inl later ↦ rw later (k.0, inserted-All p e ws h k.1)
  | inr here ↦ rw here (h, k)
]

from_All : (p q : ℕ) (ws : Woken) → p ≤ q → All (λ v. q ≤ v.0) ws → All (λ v. p ≤ v.0) ws
from_All p q [] h k = tt
from_All p q (w ∷ ws) h k = (omega (arith, k.0), from_All p q ws h k.1)

inserted-IsAscending :
    (e : ℕ × StopOrder) (ws : Woken) → IsAscending ws → IsAscending (insert_by_priority e ws)
unfolding insert_by_priority
inserted-IsAscending e [] h = (tt, tt)
inserted-IsAscending e (w ∷ ws) h = elim (Bool-cases (ltb w.0 e.0)) [
  | inl later ↦
      let before : w.0 ≤ e.0 = ground arith in
      rw later (inserted-All w.0 e ws before h.0, inserted-IsAscending e ws h.1)
  | inr here ↦
      let before : e.0 ≤ w.0 = ground arith in rw here ((before, from_All e.0 w.0 ws before h.0), h)
]

sort_by_priority-IsAscending : (ws : Woken) → IsAscending (sort_by_priority ws)
unfolding sort_by_priority
sort_by_priority-IsAscending [] = tt
sort_by_priority-IsAscending (w ∷ ws) =
    inserted-IsAscending w (sort_by_priority ws) (sort_by_priority-IsAscending ws)

-- With both maps of stops in the order of their prices, trades from `low` to `high` wake exactly the
-- sell stops at `low` or above and the buy stops at `high` or below, and all others stay dormant; the
-- woken stops join the queue of triggered stops in the order of their priorities, sells and buys
-- together.
pub wake_stops-priced :
    (low high : ℤ) (b : Book)
    → IsOrdered b.sell_stops
    → IsOrdered b.buy_stops
    → let c = wake_stops low high b in
      (c.sell_stops ≡ priced (λ p. ltb_ℤ p low) b.sell_stops)
      × (c.buy_stops ≡ priced (λ p. ltb_ℤ high p) b.buy_stops)
      × ((woken : Woken) × (c.triggered_stops ≡ b.triggered_stops ++ stops_of woken)
          × IsAscending woken
          × Perm woken (
              with_priority (priced (λ p. leb_ℤ low p) b.sell_stops)
              ++ with_priority (priced (λ p. leb_ℤ p high) b.buy_stops)))
unfolding wake_stops
wake_stops-priced low high b h k =
    let (kept_sells, sells) = split_sells-priced low b.sell_stops h in
    let (kept_buys, buys) = split_buys-priced high b.buy_stops k in
    let woke =
      with_priority (split_sells low b.sell_stops).1
      ++ with_priority (split_buys high b.buy_stops).1 in
    (
      kept_sells,
      kept_buys,
      (
        sort_by_priority woke,
        refl,
        sort_by_priority-IsAscending woke,
        rw (sym sells, sym buys) (sort_by_priority-Perm woke),
      ),
    )
