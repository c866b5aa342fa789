-- ===== src/Server/Feeds/Starting.antt =====
-- What a good request says of a symbol with a number to start from (server/src/publisher.cpp).
use Prim.Native.String.{String}
use order_book_engine.Prelude.{
  ℕ, ◌<◌, ◌≤◌, ltb, leb, true, false, ◌&&◌, none, some, List, [], ◌∷◌, ◌≡◌, refl, sym, ap, ◌∙◌, inl,
  inr, ◌⊎◌, arith, Bool-cases, Assoc, lookup, emplace, lookup-emplace, ◌==◌, ==_iff,
}
use order_book_engine.Server.Publisher.{Publisher, SymbolState, is_member}
use order_book_engine.Server.Publisher.Subscribing.{
  SubscribeError, good_from, check_request, last_of, is_too_old, oldest_of, live_states,
  start_state,
}
use order_book_engine.Server.Feeds.Viewing.{live_from}

-- The state of a symbol that is among those of the request.
live_states-kept :
    (s : ℕ) (symbols : List ℕ) (from : Assoc ℕ) (live : Assoc SymbolState) (st : SymbolState)
    → lookup s live ≡ some st
    → lookup s (live_states symbols from live) ≡ some st
live_states-kept s [] from live st found = found
live_states-kept s (x ∷ symbols) from live st found =
    live_states-kept s symbols from (emplace x (start_state (lookup x from)) live) st
      (ground (arith, lookup-emplace x s (start_state (lookup x from)) live))

live_states-found :
    (s : ℕ) (symbols : List ℕ) (from : Assoc ℕ) (live : Assoc SymbolState)
    → lookup s live ≡ none
    → is_member s symbols ≡ true
    → lookup s (live_states symbols from live) ≡ some (start_state (lookup s from))
live_states-found s [] from live unset member = absurd (ground arith)
live_states-found s (x ∷ symbols) from live unset member =
    let st = start_state (lookup x from) in
    let l = lookup-emplace x s st live in
    elim (Bool-cases (s == x)) [
      | inl here ↦
          let ids : s ≡ x = (==_iff s x).0 here in
          let unset_here : lookup x live ≡ none = rw (← ids) unset in
          live_states-kept s symbols from (emplace x st live) (start_state (lookup s from))
            (l ∙ rw (unset_here, here) (ap (λ i. some (start_state (lookup i from))) (sym ids)))
      | inr other ↦
          live_states-found s symbols from (emplace x st live) (ground (arith, l))
            (ground (arith, other, member))
    ]

pub live_states-live_from :
    (s wanted : ℕ) (symbols : List ℕ) (from : Assoc ℕ)
    → lookup s from ≡ some wanted
    → is_member s symbols ≡ true
    → lookup s (live_states symbols from []) ≡ some (live_from wanted)
unfolding lookup
live_states-live_from s wanted symbols from asked member =
    live_states-found s symbols from [] refl member ∙ ap (λ o. some (start_state o)) asked

-- A good request names only its own symbols.
good_from-member :
    (s wanted : ℕ) (from : Assoc ℕ) (symbols : List ℕ)
    → good_from from symbols ≡ true
    → lookup s from ≡ some wanted
    → is_member s symbols ≡ true
unfolding lookup
good_from-member s wanted [] symbols good asked = absurd (ground arith)
good_from-member s wanted ((x, n) ∷ from) symbols good asked = elim (Bool-cases (s == x)) [
  | inl here ↦ let ids = (==_iff s x).0 here in rw ids (ground (arith, good))
  | inr other ↦
      good_from-member s wanted from symbols (ground (arith, good)) (ground (arith, other, asked))
]

pub check_request-member :
    (g : String) (s wanted : ℕ) (symbols : List ℕ) (from : Assoc ℕ) (p : Publisher)
    → check_request g symbols from p ≡ SubscribeError.none
    → lookup s from ≡ some wanted
    → is_member s symbols ≡ true
unfolding check_request
check_request-member g s wanted symbols from p good asked =
    good_from-member s wanted from symbols (ground (arith, good)) asked

-- A number that is not too old is above the last one, or the history holds it.
recent_number :
    (n last oldest : ℕ) → (leb n last && ltb n oldest) ≡ false → (last < n) ⊎ (oldest ≤ n)
recent_number n last oldest h = ground (arith, h)

pub is_too_old-recent :
    (s wanted : ℕ) (from : Assoc ℕ) (p : Publisher)
    → is_too_old from p ≡ false
    → lookup s from ≡ some wanted
    → (last_of s p < wanted) ⊎ (oldest_of s p ≤ wanted)
unfolding lookup
is_too_old-recent s wanted [] p recent asked = absurd (ground arith)
is_too_old-recent s wanted ((x, n) ∷ from) p recent asked = elim (Bool-cases (s == x)) [
  | inl here ↦
      let same : n ≡ wanted = ground (arith, here, asked) in
      let fine : (leb n (last_of x p) && ltb n (oldest_of x p)) ≡ false = ground (arith, recent) in
      rw ((==_iff s x).0 here, ← same) (recent_number n (last_of x p) (oldest_of x p) fine)
  | inr other ↦
      is_too_old-recent s wanted from p (ground (arith, recent)) (ground (arith, other, asked))
]
