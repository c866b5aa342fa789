-- ===== src/Server/Publisher/Recording.antt =====
-- The history that the publisher keeps for replays (server/src/publisher.cpp, `route`).
pub mod Handling
use order_book_engine.Prelude.{
  ℕ, ◌+◌, ◌%◌, ◌<◌, ◌≤◌, ltb, true, false, Option, none, some, List, [], ◌∷◌, ◌++◌, ◌≡◌, refl, sym,
  ap, subst, ◌∙◌, inl, inr, ◌⊎◌, arith, Bool-cases, Option-cases, if_both, lookup, insert,
  lookup-insert, ◌==◌, ==_iff, ==_refl, length, length-append, All, is_some, find_name,
}
use order_book_engine.Book.State.{word}
use order_book_engine.Server.Commands.{MarketEvent, Reply, SnapshotReady, Output}
use order_book_engine.Server.Subscription.{FeedItem, EndReason}
use order_book_engine.Server.Worker.Streams.Dating.{Stream}
use order_book_engine.Server.Publisher.{
  Publisher, history_of, remember, trim, drop_first, drop, drop_all, drop_slow, count_slow,
  push_one, offer, route_event, show_event, count_event, route_reply, route_snapshot, make_live,
  close, handle, read,
}
use order_book_engine.Server.Publisher.Subscribing.{last_of}

-- Events of the symbol, numbered from `n` on; `end` is the number after them.
abbrev pub Kept : ℕ → ℕ → List MarketEvent → ℕ → Type 0
Kept s n [] end = end ≡ n
Kept s n (e ∷ es) end =
    ((s == e.symbol) ≡ true) × (e.event.sequence_number ≡ n) × Kept s (n + 1) es end

-- What is kept of a symbol ends before `next`, and is the window, or all there was.
abbrev pub IsRecorded : ℕ → ℕ → Publisher → Type 0
IsRecorded s next p =
    (last_of s p + 1 ≡ next)
    × (length (history_of s p) ≤ p.options.replay_window)
    × (n : ℕ) × Kept s n (history_of s p) next
    × ((n ≡ 1) ⊎ (length (history_of s p) ≡ p.options.replay_window))

abbrev pub AllOf : ℕ → List MarketEvent → Type 0
AllOf s es = All (λ e. (s == e.symbol) ≡ true) es

-- Each history is of its own symbol.
abbrev pub IsFiled : Publisher → Type 0
IsFiled p = (s : ℕ) → AllOf s (history_of s p)

Kept-append :
    (s n end : ℕ) (es : List MarketEvent) (e : MarketEvent)
    → (s == e.symbol) ≡ true
    → e.event.sequence_number ≡ end
    → Kept s n es end
    → Kept s n (es ++ e ∷ []) (end + 1)
Kept-append s n end [] e mine number h = (mine, number ∙ h, ap (λ k. k + 1) h)
Kept-append s n end (x ∷ es) e mine number (here, at, rest) =
    (here, at, Kept-append s (n + 1) end es e mine number rest)

pub AllOf-append :
    (s : ℕ) (es : List MarketEvent) (e : MarketEvent)
    → (s == e.symbol) ≡ true
    → AllOf s es
    → AllOf s (es ++ e ∷ [])
AllOf-append s [] e mine h = (mine, tt)
AllOf-append s (x ∷ es) e mine h = (h.0, AllOf-append s es e mine h.1)

AllOf-drop_first : (s : ℕ) (es : List MarketEvent) → AllOf s es → AllOf s (drop_first es)
AllOf-drop_first s [] h = tt
AllOf-drop_first s (x ∷ es) h = h.1

pub AllOf-trim : (s window : ℕ) (es : List MarketEvent) → AllOf s es → AllOf s (trim window es)
AllOf-trim s window es h =
    if_both (AllOf s) (window == 0) _ _ (λ z. tt)
      (λ nz.
        if_both (AllOf s) (ltb window (length es)) _ _ (λ long. AllOf-drop_first s es h)
          (λ short. h))

-- The part of `IsRecorded` about the kept events, for a window.
abbrev pub Window : ℕ → ℕ → ℕ → List MarketEvent → Type 0
Window s next window es =
    (length es ≤ window) × (n : ℕ) × Kept s n es next × ((n ≡ 1) ⊎ (length es ≡ window))

drop_first-Window :
    (s next window n : ℕ) (es : List MarketEvent)
    → length es ≡ window + 1
    → Kept s n es next
    → Window s next window (drop_first es)
drop_first-Window s next window n [] l k = absurd (omega (arith, l))
drop_first-Window s next window n (x ∷ es) l (here, at, rest) =
    (omega (arith, l), n + 1, rest, inr (omega (arith, l)))

pub trim-Window :
    (s next window : ℕ) (es : List MarketEvent) (e : MarketEvent)
    → (s == e.symbol) ≡ true
    → e.event.sequence_number ≡ next
    → Window s next window es
    → Window s (next + 1) window (trim window (es ++ e ∷ []))
trim-Window s next window es e mine number (small, n, k, whole) =
    let all = es ++ e ∷ [] in
    let l = length-append es (e ∷ []) in
    let kept = Kept-append s n next es e mine number k in
    if_both (Window s (next + 1) window) (window == 0) _ _
      (λ z. (omega arith, next + 1, refl, inr (ground arith)))
      (λ nz.
        if_both (Window s (next + 1) window) (ltb window (length all)) _ _
          (λ long.
            drop_first-Window s (next + 1) window n all (ground (arith, long, small, l)) kept)
          (λ short. (
            ground (arith, short),
            n,
            kept,
            elim whole [
              | inl first ↦ inl first
              | inr full ↦ absurd (ground (arith, short, full, l))
            ],
          )))
