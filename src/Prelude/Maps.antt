-- ===== src/Prelude/Maps.antt =====
-- std::unordered_map with 64-bit keys, as an association list; its iteration order is not used.
use Prim.Native.Nat.{ℕ}
use mathlib.Core.Path.{◌≡◌, refl}
use mathlib.Core.Logic.{◌≢◌}
use mathlib.Core.Bool.{Bool}
use mathlib.Core.Option.{Option, none, some}
use mathlib.Core.List.{List, [], ◌∷◌}
use native.Mathlib.Omega.{arith}
use order_book_engine.Prelude.Lists.{NotIn, Distinct}
use order_book_engine.Prelude.Tests.{◌==◌, if◌then◌else◌, is_some}

abbrev pub Assoc {ℓ} : Type ℓ → Type ℓ
Assoc V = List (ℕ × V)

module _ {ℓ} {V : Type ℓ} where
  unfoldable pub lookup : ℕ → Assoc V → Option V
  lookup k [] = none
  lookup k ((j, v) ∷ m) = if k == j then some v else lookup k m

  abbrev pub contains : ℕ → Assoc V → Bool
  contains k m = is_some (lookup k m)

  -- `m[k] = v`
  unfoldable pub insert : ℕ → V → Assoc V → Assoc V
  insert k v [] = (k, v) ∷ []
  insert k v ((j, w) ∷ m) = if k == j then (k, v) ∷ m else (j, w) ∷ insert k v m

  -- `m.emplace(k, v)`: the first value stays.
  unfoldable pub emplace : ℕ → V → Assoc V → Assoc V
  emplace k v m = if contains k m then m else insert k v m

  -- `m.erase(k)`
  unfoldable pub erase : ℕ → Assoc V → Assoc V
  erase k [] = []
  erase k ((j, w) ∷ m) = if k == j then erase k m else (j, w) ∷ erase k m

  pub lookup-insert :
      (k j : ℕ) (v : V) (m : Assoc V)
      → lookup j (insert k v m) ≡ (if j == k then some v else lookup j m)
  unfolding lookup insert
  lookup-insert k j v [] = refl
  lookup-insert k j v ((i, w) ∷ m) = ground (arith, lookup-insert k j v m)

  pub lookup-emplace :
      (k j : ℕ) (v : V) (m : Assoc V)
      → lookup j (emplace k v m)
        ≡ (if contains k m then lookup j m else if j == k then some v else lookup j m)
  unfolding emplace
  lookup-emplace k j v m = ground (arith, lookup-insert k j v m)

  pub lookup-erase :
      (k j : ℕ) (m : Assoc V) → lookup j (erase k m) ≡ (if j == k then none else lookup j m)
  unfolding lookup erase
  lookup-erase k j [] = ground arith
  lookup-erase k j ((i, w) ∷ m) = ground (arith, lookup-erase k j m)

  abbrev pub keys : Assoc V → List ℕ
  keys [] = []
  keys ((k, v) ∷ m) = k ∷ keys m

  NotIn-erase : (k j : ℕ) (m : Assoc V) → NotIn j (keys m) → NotIn j (keys (erase k m))
  unfolding erase
  NotIn-erase k j [] h = tt
  NotIn-erase k j ((i, v) ∷ m) h = ground (arith, NotIn-erase k j m)

  pub Distinct-erase : (k : ℕ) (m : Assoc V) → Distinct (keys m) → Distinct (keys (erase k m))
  unfolding erase
  Distinct-erase k [] h = tt
  Distinct-erase k ((i, v) ∷ m) h = ground (arith, Distinct-erase k m h.1, NotIn-erase k i m h.0)

  NotIn-insert :
      (k j : ℕ) (v : V) (m : Assoc V) → j ≢ k → NotIn j (keys m) → NotIn j (keys (insert k v m))
  unfolding insert
  NotIn-insert k j v [] ne h = (ne, tt)
  NotIn-insert k j v ((i, w) ∷ m) ne h = ground (arith, NotIn-insert k j v m)

  pub Distinct-insert :
      (k : ℕ) (v : V) (m : Assoc V) → Distinct (keys m) → Distinct (keys (insert k v m))
  unfolding insert
  Distinct-insert k v [] h = (tt, tt)
  Distinct-insert k v ((i, w) ∷ m) h =
      ground (arith, Distinct-insert k v m h.1, NotIn-insert k i v m)
