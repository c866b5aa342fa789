-- ===== src/Server/Feeds/Histories.antt =====
-- The history of a symbol over a run of the publisher (server/src/publisher.cpp, `route`).
use order_book_engine.Prelude.{
  ℕ, ◌+◌, ◌%◌, ◌<◌, Bool, none, some, List, [], ◌∷◌, ◌≡◌, refl, sym, subst, inl, inr, arith, Option,
  Option-cases, length, ◌==◌, lookup, false, true,
}
use order_book_engine.Book.State.{word}
use order_book_engine.Server.Commands.{MarketEvent, Output}
use order_book_engine.Server.Subscription.{FeedItem, EndReason}
use order_book_engine.Server.Worker.Streams.Dating.{Stream}
use order_book_engine.Server.Publisher.{
  Publisher, PublisherOptions, make_publisher, handle, read, unsubscribe, remember,
}
use order_book_engine.Server.Publisher.Recording.{IsRecorded, IsFiled}
use order_book_engine.Server.Publisher.Recording.Handling.{
  noted, SameHistory, SameHistory-IsRecorded, SameHistory-IsFiled, handle-SameRecords,
  drop-SameRecords, read-SameRecords, remember-IsFiled, remember-other, remember-mine,
}
use order_book_engine.Server.Publisher.Joining.{Request, open_stream, joined}
use order_book_engine.Server.Publisher.Joining.Others.{Notes, open_stream-Notes}
use order_book_engine.Server.Publisher.Views.Sessions.{
  Action, outputs_of, act, act_all, and_go_on, with_items,
}

abbrev pub Records : ℕ → ℕ → Publisher → Type 0
Records s next p = IsFiled p × IsRecorded s next p

abbrev RecordsAfter : ℕ → ℕ → Option (Publisher × List FeedItem) → Type 0
RecordsAfter s next none = Unit
RecordsAfter s next (some (q, taken)) = Records s next q

with_items-RecordsAfter :
    (s next : ℕ) (items : List FeedItem) (o : Option (Publisher × List FeedItem))
    → RecordsAfter s next o
    → RecordsAfter s next (with_items items o)
with_items-RecordsAfter s next items none h = tt
with_items-RecordsAfter s next items (some (q, more)) h = h

and_go_on-RecordsAfter :
    (s mid end : ℕ) (o : Option (Publisher × List FeedItem))
    (f : Publisher → Option (Publisher × List FeedItem))
    → RecordsAfter s mid o
    → ((q : Publisher) → Records s mid q → RecordsAfter s end (f q))
    → RecordsAfter s end (and_go_on o f)
and_go_on-RecordsAfter s mid end none f h next = tt
and_go_on-RecordsAfter s mid end (some (q, items)) f h next =
    with_items-RecordsAfter s end items (f q) (next q h)

SameHistory-Records :
    (s next : ℕ) (p q : Publisher) → SameHistory p q → Records s next p → Records s next q
SameHistory-Records s next p q same (filed, recorded) =
    (SameHistory-IsFiled p q same filed, SameHistory-IsRecorded s next p q same recorded)

handles-RecordsAfter :
    (s next id : ℕ) (o : Output) (p : Publisher)
    → Records s next (noted o p)
    → RecordsAfter s next (act id (Action.handles o) p)
unfolding act
handles-RecordsAfter s next id o p h = elim (Option-cases (handle o p)) [
  | inl thrown ↦ rw thrown tt
  | inr (q, done) ↦
      rw done (SameHistory-Records s next (noted o p) q (handle-SameRecords o p q done).0 h)
]

remember-Records-other :
    (s next : ℕ) (e : MarketEvent) (p : Publisher)
    → (s == e.symbol) ≡ false
    → Records s next p
    → Records s next (remember e p)
remember-Records-other s next e p other (filed, recorded) =
    (remember-IsFiled e p filed, remember-other s next e p other recorded)

remember-Records-mine :
    (s next : ℕ) (e : MarketEvent) (p : Publisher)
    → (s == e.symbol) ≡ true
    → e.event.sequence_number ≡ next
    → next + 1 < word
    → Records s next p
    → Records s ((next + 1) % word) (remember e p)
remember-Records-mine s next e p mine number small (filed, recorded) =
    let wrapped : (next + 1) % word ≡ next + 1 = omega (arith, small) in
    (
      remember-IsFiled e p filed,
      subst (λ n. IsRecorded s n (remember e p)) (sym wrapped)
          (remember-mine s next e p mine number recorded),
    )

opens-RecordsAfter :
    (s next id : ℕ) (x : Request) (p : Publisher)
    → Records s next p
    → RecordsAfter s next (act id (Action.opens x) p)
unfolding act
opens-RecordsAfter s next id x p h = elim (Option-cases (joined (open_stream x p))) [
  | inl thrown ↦ rw thrown tt
  | inr (q, done) ↦
      rw done (SameHistory-Records s next p q (subst (Notes p) done (open_stream-Notes x p)) h)
]

act_all-RecordsAfter :
    (s next end id : ℕ) (acts : List Action) (p : Publisher)
    → Records s next p
    → Stream s next (outputs_of acts) end
    → next + length (outputs_of acts) < word
    → RecordsAfter s end (act_all id acts p)
unfolding act_all
act_all-RecordsAfter s next end id [] p h stream small = subst (λ n. Records s n p) (sym stream) h
act_all-RecordsAfter s next end id (Action.handles (Output.market_event e) ∷ acts) p h
      (inl (other, stream)) small =
    and_go_on-RecordsAfter s next end (act id (Action.handles (Output.market_event e)) p)
      (act_all id acts)
      (handles-RecordsAfter s next id (Output.market_event e) p
        (remember-Records-other s next e p other h))
      (λ q k. act_all-RecordsAfter s next end id acts q k stream (omega (arith, small)))
act_all-RecordsAfter s next end id (Action.handles (Output.market_event e) ∷ acts) p h
      (inr (mine, number, stream)) small =
    let then_next = (next + 1) % word in
    and_go_on-RecordsAfter s then_next end (act id (Action.handles (Output.market_event e)) p)
      (act_all id acts)
      (handles-RecordsAfter s then_next id (Output.market_event e) p
        (remember-Records-mine s next e p mine number (omega (arith, small)) h))
      (λ q k. act_all-RecordsAfter s then_next end id acts q k stream (omega (arith, small)))
act_all-RecordsAfter s next end id (Action.handles (Output.snapshot_ready r) ∷ acts) p h (d, stream)
      small =
    and_go_on-RecordsAfter s next end (act id (Action.handles (Output.snapshot_ready r)) p)
      (act_all id acts) (handles-RecordsAfter s next id (Output.snapshot_ready r) p h)
      (λ q k. act_all-RecordsAfter s next end id acts q k stream (omega (arith, small)))
act_all-RecordsAfter s next end id (Action.handles (Output.reply r) ∷ acts) p h stream small =
    and_go_on-RecordsAfter s next end (act id (Action.handles (Output.reply r)) p) (act_all id acts)
      (handles-RecordsAfter s next id (Output.reply r) p h)
      (λ q k. act_all-RecordsAfter s next end id acts q k stream (omega (arith, small)))
act_all-RecordsAfter s next end id (Action.handles Output.outbox_closed ∷ acts) p h stream small =
    and_go_on-RecordsAfter s next end (act id (Action.handles Output.outbox_closed) p)
      (act_all id acts) (handles-RecordsAfter s next id Output.outbox_closed p h)
      (λ q k. act_all-RecordsAfter s next end id acts q k stream (omega (arith, small)))
act_all-RecordsAfter s next end id (Action.reads j ∷ acts) p h stream small =
    and_go_on-RecordsAfter s next end (act id (Action.reads j) p) (act_all id acts)
      (SameHistory-Records s next p (read j p).1 (read-SameRecords j p).0 h)
      (λ q k. act_all-RecordsAfter s next end id acts q k stream small)
act_all-RecordsAfter s next end id (Action.leaves j ∷ acts) p h stream small =
    and_go_on-RecordsAfter s next end (act id (Action.leaves j) p) (act_all id acts)
      (SameHistory-Records s next p (unsubscribe j p)
        (drop-SameRecords j EndReason.unsubscribed p).0 h)
      (λ q k. act_all-RecordsAfter s next end id acts q k stream small)
act_all-RecordsAfter s next end id (Action.opens x ∷ acts) p h stream small =
    and_go_on-RecordsAfter s next end (act id (Action.opens x) p) (act_all id acts)
      (opens-RecordsAfter s next id x p h)
      (λ q k. act_all-RecordsAfter s next end id acts q k stream small)

-- Let the histories of a publisher each be of their own symbol, and that of one symbol hold its last
-- events, numbered without a gap up to the last one known: as many as the replay window, or all from
-- number 1. The same holds after any interleaving of outputs, reads, leavings and openings of streams
-- whose events of the symbol are numbered on from there, and stay below 2 ^ 64.
pub act_all-Records :
    (s next end id : ℕ) (acts : List Action) (p q : Publisher) (taken : List FeedItem)
    → Records s next p
    → Stream s next (outputs_of acts) end
    → next + length (outputs_of acts) < word
    → act_all id acts p ≡ some (q, taken)
    → Records s end q
act_all-Records s next end id acts p q taken h stream small done =
    subst (RecordsAfter s end) done (act_all-RecordsAfter s next end id acts p h stream small)

-- A publisher that was just made.
pub make_publisher-Records :
    (s : ℕ) (symbols : List ℕ) (has_requester : Bool) (options : PublisherOptions) (p : Publisher)
    → make_publisher symbols has_requester options ≡ some p
    → Records s 1 p
unfolding make_publisher lookup
make_publisher-Records s symbols has_requester options p made =
    let events : p.history ≡ [] = ground (arith, made) in
    let numbers : p.last_seq ≡ [] = ground (arith, made) in
    ((λ k. rw events tt), rw (events, numbers) (refl, omega arith, 1, refl, inl refl))
