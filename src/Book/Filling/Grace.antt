-- ===== src/Book/Filling/Grace.antt =====
-- What the price band lets the loop of add_order_core trade (engine/src/book.cpp).
use order_book_engine.Prelude.{
  ℕ, ℤ, ◌-ℤ◌, leb_ℤ, Bool, true, false, not, Option, none, some, is_some, List, [], ◌∷◌, ◌++◌, ◌≡◌,
  refl, ap, sym, subst, ◌⊎◌, inl, inr, ◌∙◌, arith, append_assoc, append-nil, Bool-cases,
}
use order_book_engine.Types.{Order, Trade, is_fully_filled}
use order_book_engine.Book.State.{Book, emit}
use order_book_engine.Book.Bands.{within_band}
use order_book_engine.Book.Matching.{ProposedFill}
use order_book_engine.Book.Resting.{node_at}
use order_book_engine.Book.Resting.Untouched.{
  off_book, remove_resting-off_book, reduce_resting-off_book,
}
use order_book_engine.Book.Filling.{
  FillLoop, start_loop, proceed, make_trade, check_band, add_filled, retire_if_filled, fill_passive,
  execute_fill, execute_fills,
}
use order_book_engine.Book.Filling.Trades.{check_band-trades, Verdict-cases}

-- The grace period that began at `since`, if one did, has not run out.
abbrev pub in_grace : ℤ → ℤ → Option ℤ → Bool
in_grace period now none = true
in_grace period now (some since) = not (leb_ℤ period (now -ℤ since))

-- The start of the grace period after a trade out of the band.
abbrev pub grace_from : ℤ → Option ℤ → ℤ
grace_from now none = now
grace_from now (some since) = since

abbrev pub SamePrice : Option ℤ → ℤ → Type 0
SamePrice none price = Unit
SamePrice (some p) price = price ≡ p

-- Each trade is inside the band, and the trade after it starts afresh; or it is outside, the grace
-- period `since` runs, and its price is that of the trade before it, if that was outside as well.
abbrev pub OneLevel : Book → ℤ → Option ℤ → Option ℤ → List Trade → Type 0
OneLevel b now since before [] = Unit
OneLevel b now since before (t ∷ ts) =
    ((within_band t.price b ≡ true) × OneLevel b now none none ts)
    ⊎ ((within_band t.price b ≡ false)
        × (in_grace b.grace_period_ms now since ≡ true)
        × SamePrice before t.price
        × OneLevel b now (some (grace_from now since)) (some t.price) ts)

-- What the band check reads: the book with its orders and its records forgotten.
abbrev band_state : Book → Book
band_state b = record (off_book b) {
  finished_orders = [];
  events = [];
  next_seq = 0;
  owner_of = [];
  next_trade_id = 0;
}

retire_if_filled_band : (n : ℕ) (b : Book) → band_state (retire_if_filled n b) ≡ band_state b
unfolding retire_if_filled
retire_if_filled_band n b = elim (Bool-cases (is_fully_filled (node_at b n).order)) [
  | inl full ↦ rw full (ap band_state (remove_resting-off_book n _))
  | inr rest ↦ rw rest refl
]

execute_fill_band :
    (f : ProposedFill) (now : ℤ) (s : FillLoop)
    → band_state (execute_fill f now s).book ≡ band_state s.book
unfolding execute_fill fill_passive add_filled emit
execute_fill_band f now s =
    retire_if_filled_band f.passive_node _
    ∙ ap band_state (reduce_resting-off_book f.passive_node f.fill_quantity _)

-- What the loop remembers of a trade out of the band that came last.
abbrev Remembers : Option ℤ → FillLoop → Type 0
Remembers none s = Unit
Remembers (some p) s = (s.breach_level ≡ some p) × (is_some s.book.outside_band_since ≡ true)

-- Where the band check lets the loop go on.
abbrev Allowed : ℤ → ℤ → Option ℤ → FillLoop → FillLoop → Type 0
Allowed price now before s s' =
    ((within_band price s.book ≡ true) × (s'.book.outside_band_since ≡ none))
    ⊎ ((within_band price s.book ≡ false)
        × (in_grace s.book.grace_period_ms now s.book.outside_band_since ≡ true)
        × SamePrice before price
        × (s'.book.outside_band_since ≡ some (grace_from now s.book.outside_band_since))
        × (s'.breach_level ≡ some price))

check_band-Allowed :
    (price now : ℤ) (before : Option ℤ) (s s' : FillLoop)
    → Remembers before s
    → check_band price now s ≡ proceed s'
    → Allowed price now before s s'
unfolding check_band
check_band-Allowed price now before s s' h e = ground arith

check_band-kept :
    (price now : ℤ) (s s' : FillLoop)
    → check_band price now s ≡ proceed s'
    → (record (s'.book) { outside_band_since = none }
        ≡ record (s.book) { outside_band_since = none })
      × (s'.trades ≡ s.trades)
unfolding check_band
check_band-kept price now s s' e = ground arith

-- The band of the loop's book is that of `b`.
abbrev BandOf : Book → Book → Type 0
BandOf b c = ((p : ℤ) → within_band p c ≡ within_band p b) × (c.grace_period_ms ≡ b.grace_period_ms)

round_BandOf :
    (f : ProposedFill) (now : ℤ) (s s' : FillLoop)
    → check_band f.fill_price now s ≡ proceed s'
    → BandOf s.book (execute_fill f now s').book
unfolding within_band
round_BandOf f now s s' e =
    let kept = (check_band-kept f.fill_price now s s' e).0 in
    let done = execute_fill_band f now s' in
    (
      λ p. ap (within_band p) done ∙ ap (within_band p) kept,
      ap (λ c. c.grace_period_ms) done ∙ ap (λ c. c.grace_period_ms) kept,
    )

execute_fills-OneLevel_from :
    (fs : List ProposedFill) (now : ℤ) (b : Book) (before : Option ℤ) (s : FillLoop)
    → BandOf b s.book
    → Remembers before s
    → (new : List Trade) × ((execute_fills fs now s).trades ≡ s.trades ++ new)
      × OneLevel b now s.book.outside_band_since before new
unfolding execute_fills execute_fill
execute_fills-OneLevel_from [] now b before s band h = ([], ground (arith, append-nil s.trades), tt)
execute_fills-OneLevel_from (f ∷ fs) now b before s band h =
    elim (Verdict-cases (check_band f.fill_price now s)) [
      | inl (s', e) ↦
          let after = execute_fill f now s' in
          let trade = make_trade f now s'.incoming s'.book in
          let since : after.book.outside_band_since ≡ s'.book.outside_band_since =
            ap (λ c. c.outside_band_since) (execute_fill_band f now s') in
          let round = round_BandOf f now s s' e in
          let kept : BandOf b after.book = (λ p. round.0 p ∙ band.0 p, round.1 ∙ band.1) in
          let traded = (check_band-kept f.fill_price now s s' e).1 in
          elim (check_band-Allowed f.fill_price now before s s' h e) [
            | inl (inside, reset) ↦
                let (new, trades, level) =
                  execute_fills-OneLevel_from fs now b none after kept tt in
                (
                  trade ∷ new,
                  ground (arith, traded, append_assoc s.trades (trade ∷ []) new),
                  inl (
                    sym (band.0 f.fill_price) ∙ inside,
                    subst (λ x. OneLevel b now x none new) (since ∙ reset) level,
                  ),
                )
            | inr (outside, grace, same, began, breach) ↦
                let (new, trades, level) =
                  execute_fills-OneLevel_from fs now b (some f.fill_price) after kept
                    (breach, ap is_some (since ∙ began)) in
                (
                  trade ∷ new,
                  ground (arith, traded, append_assoc s.trades (trade ∷ []) new),
                  inr (
                    sym (band.0 f.fill_price) ∙ outside,
                    ap (λ period. in_grace period now s.book.outside_band_since) (sym band.1)
                        ∙ grace,
                    same,
                    subst (λ x. OneLevel b now x (some f.fill_price) new) (since ∙ began) level,
                  ),
                )
          ]
      | inr (s', e) ↦
          ([], ground (arith, append-nil s.trades, check_band-trades f.fill_price now s), tt)
    ]

-- Of the trades of one call, none is outside the price band once the grace period has run out, unless
-- a trade inside the band has ended that period before it; and two trades in a row outside the band
-- are at one price.
pub execute_fills-OneLevel :
    (fs : List ProposedFill) (now : ℤ) (o : Order) (b : Book)
    → OneLevel b now b.outside_band_since none (execute_fills fs now (start_loop o b)).trades
execute_fills-OneLevel fs now o b =
    let (new, trades, level) =
      execute_fills-OneLevel_from fs now b none (start_loop o b) (λ p. refl, refl) tt in
    subst (OneLevel b now b.outside_band_since none) (sym trades) level
