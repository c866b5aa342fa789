-- ===== src/Prelude/Names.antt =====
-- std::unordered_map with strings as keys, as an association list that is only read by key.
use Prim.Native.String.{String}
use text.Mathlib.Text.{◌==◌}
use text.Mathlib.TextEquality.{eq_iff}
use mathlib.Core.Path.{◌≡◌, refl}
use mathlib.Core.Logic.{◌↔◌}
use mathlib.Core.Bool.{Bool, true}
use mathlib.Core.Option.{Option, none, some}
use mathlib.Core.List.{List, [], ◌∷◌}
use native.Mathlib.Omega.{arith}
use order_book_engine.Prelude.Tests.{is_some, if◌then◌else◌}

unfoldable pub same_name : String → String → Bool
same_name a b = a == b

pub same_name_iff : (a b : String) → (same_name a b ≡ true) ↔ (a ≡ b)
unfolding same_name
same_name_iff a b = eq_iff a b

pub same_name_refl : (a : String) → same_name a a ≡ true
unfolding same_name
same_name_refl a = (eq_iff a a).1 refl

abbrev pub NameMap {ℓ} : Type ℓ → Type ℓ
NameMap V = List (String × V)

module _ {ℓ} {V : Type ℓ} where
  -- `m.find(k)`
  unfoldable pub find_name : String → NameMap V → Option V
  find_name k [] = none
  find_name k ((j, v) ∷ m) = if same_name k j then some v else find_name k m

  -- `m.emplace(k, v)`: the first value stays.
  unfoldable pub emplace_name : String → V → NameMap V → NameMap V
  unfolding find_name
  emplace_name k v m = if is_some (find_name k m) then m else (k, v) ∷ m

  -- `m.erase(k)`
  unfoldable pub erase_name : String → NameMap V → NameMap V
  erase_name k [] = []
  erase_name k ((j, v) ∷ m) = if same_name k j then erase_name k m else (j, v) ∷ erase_name k m

  pub find_name-emplace_name :
      (k j : String) (v : V) (m : NameMap V)
      → find_name k m ≡ none
      → find_name j (emplace_name k v m) ≡ (if same_name j k then some v else find_name j m)
  unfolding find_name emplace_name
  find_name-emplace_name k j v m e = rw e refl

  pub find_name-erase_name :
      (k j : String) (m : NameMap V)
      → find_name j (erase_name k m) ≡ (if same_name j k then none else find_name j m)
  unfolding find_name erase_name
  find_name-erase_name k j [] = ground arith
  find_name-erase_name k j ((i, v) ∷ m) =
      ground
        (arith, find_name-erase_name k j m, same_name_iff k i, same_name_iff j k, same_name_iff j i)
