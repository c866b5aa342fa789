-- ===== src/Server/Feeds/Resuming.antt =====
-- A stream that starts from a number: what subscribe replays of a symbol (server/src/publisher.cpp).
use order_book_engine.Prelude.{
  ℕ, ◌+◌, ◌%◌, ◌<◌, ◌≤◌, leb, true, false, Option, none, some, List, [], ◌∷◌, ◌≡◌, refl, sym, subst,
  ◌∙◌, inl, inr, arith, Bool-cases, Assoc, lookup, ◌==◌, ==_iff, append-nil, NotIn, Distinct,
}
use order_book_engine.Book.State.{word}
use order_book_engine.Server.Commands.{MarketEvent}
use order_book_engine.Server.Publisher.{Publisher, is_member, history_of}
use order_book_engine.Server.Publisher.Subscribing.{last_of, is_too_old, oldest_of, first_or}
use order_book_engine.Server.Publisher.Replaying.{events_from, wanted_events, replayed}
use order_book_engine.Server.Publisher.Recording.{Kept, AllOf, IsFiled, IsRecorded}
use order_book_engine.Server.Feeds.{items_about, Numbered}
use order_book_engine.Server.Feeds.Starting.{is_too_old-recent}
use order_book_engine.Server.Feeds.Viewing.{items_about-append}

-- What is replayed of one symbol.
items_about-mine :
    (s wanted : ℕ) (es : List MarketEvent)
    → AllOf s es
    → items_about s (events_from wanted es) ≡ events_from wanted es
items_about-mine s wanted [] h = refl
items_about-mine s wanted (e ∷ es) (mine, rest) =
    ground (arith, mine, items_about-mine s wanted es rest)

items_about-other :
    (s x wanted : ℕ) (es : List MarketEvent)
    → (s == x) ≡ false
    → AllOf x es
    → items_about s (events_from wanted es) ≡ []
items_about-other s x wanted [] other h = refl
items_about-other s x wanted (e ∷ es) other (theirs, rest) =
    ground (arith, theirs, other, items_about-other s x wanted es other rest)

Kept-le : (s n next : ℕ) (es : List MarketEvent) → Kept s n es next → n ≤ next
Kept-le s n next [] k = omega (arith, k)
Kept-le s n next (e ∷ es) (mine, at, rest) = omega (arith, Kept-le s (n + 1) next es rest)

events_from-Numbered :
    (s wanted n next : ℕ) (es : List MarketEvent)
    → Kept s n es next
    → wanted ≤ n
    → next < word
    → Numbered n (events_from wanted es) next
events_from-Numbered s wanted n next [] k le small = k
events_from-Numbered s wanted n next (e ∷ es) (mine, at, rest) le small =
    let asked : leb wanted e.event.sequence_number ≡ true = ground (arith, at, le) in
    let wrapped : (n + 1) % word ≡ n + 1 = omega (arith, small, Kept-le s (n + 1) next es rest) in
    rw asked (
      at,
      subst (λ k. Numbered k (events_from wanted es) next) (sym wrapped)
          (events_from-Numbered s wanted (n + 1) next es rest (omega (arith, le)) small),
    )

Kept-from :
    (s wanted n next : ℕ) (es : List MarketEvent)
    → Kept s n es next
    → n ≤ wanted
    → wanted ≤ next
    → next < word
    → Numbered wanted (events_from wanted es) next
Kept-from s wanted n next [] k le under small = omega (arith, k, le, under)
Kept-from s wanted n next (e ∷ es) (mine, at, rest) le under small =
    elim (Bool-cases (leb wanted e.event.sequence_number)) [
      | inl asked ↦
          let first : n ≡ wanted = ground (arith, asked, at, le) in
          subst (λ k. Numbered k (events_from wanted (e ∷ es)) next) first
            (events_from-Numbered s wanted n next (e ∷ es) (mine, at, rest) (omega (arith, first))
              small)
      | inr early ↦
          rw early (Kept-from s wanted (n + 1) next es rest (ground (arith, early, at)) under small)
    ]

wanted_events-other :
    (s x : ℕ) (wanted : Option ℕ) (es : List MarketEvent)
    → (s == x) ≡ false
    → AllOf x es
    → items_about s (wanted_events wanted es) ≡ []
wanted_events-other s x none es other h = refl
wanted_events-other s x (some wanted) es other h = items_about-other s x wanted es other h

-- All that is replayed of a symbol is what its history holds from the number on.
replayed-without :
    (s : ℕ) (symbols : List ℕ) (from : Assoc ℕ) (p : Publisher)
    → IsFiled p
    → NotIn s symbols
    → items_about s (replayed symbols from p) ≡ []
replayed-without s [] from p filed away = refl
replayed-without s (x ∷ symbols) from p filed (ne, away) =
    let other : (s == x) ≡ false = ground (arith, ne) in
    items_about-append s (wanted_events (lookup x from) (history_of x p)) (replayed symbols from p)
    ∙ rw (wanted_events-other s x (lookup x from) (history_of x p) other (filed x))
        (replayed-without s symbols from p filed away)

replayed-mine :
    (s wanted : ℕ) (symbols : List ℕ) (from : Assoc ℕ) (p : Publisher)
    → IsFiled p
    → Distinct symbols
    → lookup s from ≡ some wanted
    → is_member s symbols ≡ true
    → items_about s (replayed symbols from p) ≡ events_from wanted (history_of s p)
replayed-mine s wanted [] from p filed once asked member = absurd (ground arith)
replayed-mine s wanted (x ∷ symbols) from p filed (away, once) asked member =
    let items = wanted_events (lookup x from) (history_of x p) in
    let split = items_about-append s items (replayed symbols from p) in
    elim (Bool-cases (s == x)) [
      | inl here ↦
          let ids : s ≡ x = (==_iff s x).0 here in
          let first : items_about s items ≡ events_from wanted (history_of s p) =
            rw (← ids, asked) (items_about-mine s wanted (history_of s p) (filed s)) in
          let rest : items_about s (replayed symbols from p) ≡ [] =
            replayed-without s symbols from p filed (rw ids away) in
          split ∙ rw (first, rest) (append-nil (events_from wanted (history_of s p)))
      | inr other ↦
          split
          ∙ rw (wanted_events-other s x (lookup x from) (history_of x p) other (filed x)) (
              replayed-mine s wanted symbols from p filed once asked
                (ground (arith, other, member)))
    ]

first_or-Kept :
    (s m n next : ℕ) (es : List MarketEvent) → Kept s n es next → m ≡ next → first_or m es ≡ n
first_or-Kept s m n next [] k e = e ∙ k
first_or-Kept s m n next (x ∷ es) (mine, at, rest) e = at

-- The replay of a symbol goes from the number asked for to the last one.
pub replayed-Numbered :
    (s wanted next : ℕ) (symbols : List ℕ) (from : Assoc ℕ) (p : Publisher)
    → IsFiled p
    → IsRecorded s next p
    → Distinct symbols
    → is_member s symbols ≡ true
    → lookup s from ≡ some wanted
    → is_too_old from p ≡ false
    → wanted ≤ next
    → next < word
    → Numbered wanted (items_about s (replayed symbols from p)) next
replayed-Numbered s wanted next symbols from p filed (last, fits, n, kept, whole) once member asked
      recent under small =
    let oldest : oldest_of s p ≡ n =
      first_or-Kept s ((last_of s p + 1) % word) n next (history_of s p) kept
        (omega (arith, last, small)) in
    let low : n ≤ wanted = elim (is_too_old-recent s wanted from p recent asked) [
      | inl above ↦ omega (arith, above, last, Kept-le s n next (history_of s p) kept, under)
      | inr held ↦ omega (arith, held, oldest)
    ] in
    subst (λ xs. Numbered wanted xs next)
      (sym (replayed-mine s wanted symbols from p filed once asked member))
      (Kept-from s wanted n next (history_of s p) kept low under small)
