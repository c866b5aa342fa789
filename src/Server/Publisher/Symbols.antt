-- ===== src/Server/Publisher/Symbols.antt =====
-- The symbols of a subscription are sorted and distinct (server/src/publisher.cpp, `subscribe`).
use order_book_engine.Prelude.{
  ℕ, ◌+◌, ◌≤◌, leb, false, List, [], ◌∷◌, ◌≡◌, arith, Bool-cases, All, All-map, NotIn, Distinct,
  inl, inr,
}
use order_book_engine.Server.Publisher.{Publisher}
use order_book_engine.Server.Publisher.Subscribing.{
  insert_sorted, sort, unique, is_head, wanted_symbols,
}

-- The sorted symbols are distinct.
abbrev AllFrom : ℕ → List ℕ → Type 0
AllFrom n ss = All (λ s. n ≤ s) ss

abbrev IsAscending : List ℕ → Type 0
IsAscending [] = Unit
IsAscending (s ∷ ss) = AllFrom s ss × IsAscending ss

AllFrom-insert_sorted :
    (n s : ℕ) (ss : List ℕ) → n ≤ s → AllFrom n ss → AllFrom n (insert_sorted s ss)
AllFrom-insert_sorted n s [] le h = (le, tt)
AllFrom-insert_sorted n s (t ∷ ts) le h = ground (arith, AllFrom-insert_sorted n s ts le h.1)

insert_sorted-IsAscending :
    (s : ℕ) (ss : List ℕ) → IsAscending ss → IsAscending (insert_sorted s ss)
insert_sorted-IsAscending s [] h = (tt, tt)
insert_sorted-IsAscending s (t ∷ ts) h = elim (Bool-cases (leb s t)) [
  | inl before ↦
      rw before ((ground arith, All-map (λ x. t ≤ x) (λ x. s ≤ x) ts (λ x le. ground arith) h.0), h)
  | inr after ↦
      rw after (AllFrom-insert_sorted t s ts (ground arith) h.0, insert_sorted-IsAscending s ts h.1)
]

sort-IsAscending : (ss : List ℕ) → IsAscending (sort ss)
sort-IsAscending [] = tt
sort-IsAscending (s ∷ ss) = insert_sorted-IsAscending s (sort ss) (sort-IsAscending ss)

AllFrom-unique : (n : ℕ) (ss : List ℕ) → AllFrom n ss → AllFrom n (unique ss)
AllFrom-unique n [] h = tt
AllFrom-unique n (s ∷ ss) h = ground (arith, AllFrom-unique n ss h.1)

NotIn-above : (s : ℕ) (ss : List ℕ) → AllFrom (s + 1) ss → NotIn s ss
NotIn-above s [] h = tt
NotIn-above s (t ∷ ts) h = ((λ e. absurd (omega (arith, h.0, e))), NotIn-above s ts h.1)

above_head :
    (s : ℕ) (ss : List ℕ) → IsAscending (s ∷ ss) → is_head s ss ≡ false → AllFrom (s + 1) ss
above_head s [] h other = tt
above_head s (t ∷ ts) h other =
    let next : s + 1 ≤ t = ground (arith, h.0.0, other) in
    (next, All-map (λ x. t ≤ x) (λ x. s + 1 ≤ x) ts (λ x le. omega (arith, next, le)) h.1.0)

unique-Distinct : (ss : List ℕ) → IsAscending ss → Distinct (unique ss)
unique-Distinct [] h = tt
unique-Distinct (s ∷ ss) h = elim (Bool-cases (is_head s ss)) [
  | inl same ↦ rw same (unique-Distinct ss h.1)
  | inr other ↦ rw other (
    NotIn-above s (unique ss) (AllFrom-unique (s + 1) ss (above_head s ss h other)),
    unique-Distinct ss h.1,
  )
]

pub wanted_symbols-Distinct :
    (symbols : List ℕ) (p : Publisher) → Distinct (wanted_symbols symbols p)
wanted_symbols-Distinct [] p = unique-Distinct _ (sort-IsAscending p.symbol_list)
wanted_symbols-Distinct (s ∷ ss) p = unique-Distinct _ (sort-IsAscending (s ∷ ss))
