-- ===== src/Server/SequencerFeed/Retrying.antt =====
-- When the feed does not give up (server/src/sequencer_feed.cpp).
use order_book_engine.Prelude.{
  ℕ, ◌+◌, ◌≤◌, ◌≤ℤ◌, Bool, true, false, none, List, [], ◌∷◌, ◌++◌, ◌≡◌, refl, sym, ap, ltb_ℤ, pos,
  ◌∙◌, inl, inr, ◌==◌, is_some, arith, append-nil, Option-cases,
}
use order_book_engine.Server.Worker.{owns, submit}
use order_book_engine.Server.Protobuf.{Protobuf}
use order_book_engine.Server.Codec.{decode_body}
use order_book_engine.Server.SequencerFeed.{
  SequencedCommand, StatusCode, Stopping, Attempt, Feed, expected, take, receive_all, end_of_stream,
  then_wait, finish, if_again, run,
}
use order_book_engine.Server.SequencerFeed.Taking.{Follows, AllOwned, Taken}
use order_book_engine.Server.SequencerFeed.Attempts.{all_commands, is_never_stopped, run-Runs}

-- Statuses that end an attempt without ending the feed by themselves.
abbrev pub is_retryable : StatusCode → Bool
is_retryable StatusCode.already_exists = true
is_retryable StatusCode.other = true
is_retryable _ = false

abbrev pub counts_as_busy : StatusCode → ℕ
counts_as_busy StatusCode.already_exists = 1
counts_as_busy _ = 0

module _ (pb : Protobuf) where
  -- How many attempts end because another subscriber holds the partition.
  abbrev pub busy : List (Attempt pb) → ℕ
  busy [] = 0
  busy (a ∷ attempts) = counts_as_busy a.code + busy attempts

  -- The sequencer answers each request with the commands from the number on that was asked for, for
  -- symbols of the worker `f`, and ends no attempt with a fatal status; no stop comes.
  abbrev pub Serves : Feed → ℕ → List (Attempt pb) → Type 0
  Serves f last [] = Unit
  Serves f last (a ∷ attempts) =
      (mid : ℕ) × Follows pb last a.commands mid
      × AllOwned pb f a.commands
      × (is_retryable a.code ≡ true)
      × (a.stopping ≡ Stopping.not_stopped)
      × Serves f mid attempts

  -- A step after which the feed goes on.
  pub record Served (f : Feed) (end : ℕ) (g : Feed) : Type 0 where
    pub failure : g.failure ≡ none
    pub last : g.last ≡ end
    pub books : g.worker.books ≡ f.worker.books
    pub retries : g.already_exists_retries ≤ f.already_exists_retries
    pub limit : g.max_retries ≡ f.max_retries

  AllOwned-books :
      (f g : Feed) (cs : List (SequencedCommand pb))
      → g.worker.books ≡ f.worker.books
      → AllOwned pb f cs
      → AllOwned pb g cs
  unfolding owns
  AllOwned-books f g [] same h = tt
  AllOwned-books f g (c ∷ cs) same h = (rw same h.0, AllOwned-books f g cs same h.1)

  Serves-books :
      (f g : Feed) (last : ℕ) (attempts : List (Attempt pb))
      → g.worker.books ≡ f.worker.books
      → Serves f last attempts
      → Serves g last attempts
  Serves-books f g last [] same h = tt
  Serves-books f g last (a ∷ attempts) same (mid, h, owned, code, calm, more) = (
    mid,
    h,
    AllOwned-books f g a.commands same owned,
    code,
    calm,
    Serves-books f g mid attempts same more,
  )

  abbrev pub ReadsOn : Feed → ℕ → Bool × Feed → Type 0
  ReadsOn f mid (fatal, g) = (fatal ≡ false) × Served f mid g

  take-Served :
      (c : SequencedCommand pb) (f : Feed) → f.failure ≡ none → Served f c.seq (take pb c f)
  unfolding submit
  take-Served c f fine =
      elim (Option-cases (decode_body pb c.symbol c.client_order_id c.payload).command) [
        | inl e ↦ record {
          failure = rw e fine;
          last = rw e refl;
          books = rw e refl;
          retries = rw e (omega arith);
          limit = rw e refl;
        }
        | inr (command, e) ↦ record {
          failure = rw e fine;
          last = rw e refl;
          books = rw e refl;
          retries = rw e (omega arith);
          limit = rw e refl;
        }
      ]

  receive_all-ReadsOn :
      (cs : List (SequencedCommand pb)) (f : Feed) (mid : ℕ)
      → f.failure ≡ none
      → Follows pb f.last cs mid
      → AllOwned pb f cs
      → ReadsOn f mid (receive_all pb cs f)
  unfolding receive_all
  receive_all-ReadsOn [] f mid fine h owned = (
    refl,
    record { failure = fine; last = sym h; books = refl; retries = omega arith; limit = refl },
  )
  receive_all-ReadsOn (c ∷ cs) f mid fine h owned =
      let numbered : (c.seq == expected f) ≡ true = ground arith in
      let t = take-Served c f fine in
      let (kept, u) =
        receive_all-ReadsOn cs (take pb c f) mid t.failure (rw t.last h.1)
          (AllOwned-books f (take pb c f) cs t.books owned.1) in
      rw (numbered, owned.0)
        (
          kept,
          record {
            failure = u.failure;
            last = u.last;
            books = u.books ∙ t.books;
            retries = omega (arith, u.retries, t.retries);
            limit = u.limit ∙ t.limit;
          },
        )

  abbrev pub TriesOn : StatusCode → Feed → Bool × Feed → Type 0
  TriesOn code f (again, g) =
      (again ≡ true)
      × (g.failure ≡ none)
      × (g.worker ≡ f.worker)
      × (g.last ≡ f.last)
      × (g.max_retries ≡ f.max_retries)
      × g.already_exists_retries ≤ f.already_exists_retries + counts_as_busy code

  end_of_stream-TriesOn :
      (code : StatusCode) (f : Feed)
      → is_retryable code ≡ true
      → f.failure ≡ none
      → pos (f.already_exists_retries + counts_as_busy code) ≤ℤ f.max_retries
      → TriesOn code f (end_of_stream code f)
  end_of_stream-TriesOn StatusCode.out_of_range f ok fine few = absurd (ground arith)
  end_of_stream-TriesOn StatusCode.not_found f ok fine few = absurd (ground arith)
  end_of_stream-TriesOn StatusCode.invalid_argument f ok fine few = absurd (ground arith)
  end_of_stream-TriesOn StatusCode.already_exists f ok fine few =
      let below : ltb_ℤ f.max_retries (pos (f.already_exists_retries + 1)) ≡ false = ground arith in
      rw below (refl, fine, refl, refl, refl, omega arith)
  end_of_stream-TriesOn StatusCode.other f ok fine few = (refl, fine, refl, refl, refl, omega arith)

  abbrev pub FineAfter : List (Attempt pb) → ℕ → Feed → Type 0
  FineAfter attempts mid g =
      (h : Feed)
      → h.failure ≡ none
      → h.last ≡ mid
      → h.worker.books ≡ g.worker.books
      → pos (h.already_exists_retries + busy attempts) ≤ℤ h.max_retries
      → (run pb attempts h).failure ≡ none

  again-fine :
      (attempts : List (Attempt pb)) (code : StatusCode) (g : Feed) (r : Bool × Feed)
      → TriesOn code g r
      → pos (g.already_exists_retries + counts_as_busy code + busy attempts) ≤ℤ g.max_retries
      → FineAfter attempts g.last g
      → (if_again pb (then_wait false r) (run pb attempts)).failure ≡ none
  again-fine attempts code g (true, h) (again, fine, w, l, m, few) budget next =
      next h fine l (ap (λ x. x.books) w) (rw m (omega arith))
  again-fine attempts code g (false, h) (again, fine, w, l, m, few) budget next =
      absurd (ground arith)

  attempt-fine :
      (a : Attempt pb) (attempts : List (Attempt pb)) (f : Feed) (mid : ℕ) (r : Bool × Feed)
      → ReadsOn f mid r
      → is_retryable a.code ≡ true
      → a.stopping ≡ Stopping.not_stopped
      → pos (f.already_exists_retries + counts_as_busy a.code + busy attempts) ≤ℤ f.max_retries
      → FineAfter attempts mid f
      → (if_again pb (finish a.code a.stopping r) (run pb attempts)).failure ≡ none
  attempt-fine a attempts f mid (true, g) (fatal, t) ok calm budget next = absurd (ground arith)
  attempt-fine a attempts f mid (false, g) (fatal, t) ok calm budget next =
      let few : pos (g.already_exists_retries + counts_as_busy a.code + busy attempts)
          ≤ℤ g.max_retries =
        rw t.limit (omega (arith, t.retries)) in
      let end = end_of_stream-TriesOn a.code g ok t.failure (omega arith) in
      rw calm (
        again-fine attempts a.code g _ end few
          (λ h fine l books rest. next h fine (l ∙ t.last) (books ∙ t.books) rest))

  run-fine :
      (attempts : List (Attempt pb)) (f : Feed)
      → Serves f f.last attempts
      → f.failure ≡ none
      → pos (f.already_exists_retries + busy attempts) ≤ℤ f.max_retries
      → (run pb attempts f).failure ≡ none
  unfolding run
  run-fine [] f h fine few = fine
  run-fine (a ∷ attempts) f (mid, h, owned, code, calm, more) fine few =
      let next : FineAfter attempts mid f = λ g ok l books budget.
        run-fine attempts g (rw l (Serves-books f g mid attempts books more)) ok budget in
      let going : is_some f.failure ≡ false = ground arith in
      rw going (
        attempt-fine a attempts f mid _ (receive_all-ReadsOn a.commands f mid fine h owned) code
          calm (omega arith) next)

  never_stopped :
      (f : Feed) (last : ℕ) (attempts : List (Attempt pb))
      → Serves f last attempts
      → is_never_stopped pb attempts ≡ true
  never_stopped f last [] h = refl
  never_stopped f last (a ∷ attempts) (mid, h, owned, code, calm, more) =
      ground (arith, calm, never_stopped f mid attempts more)

  -- Where the sequencer answers every request with the commands from the number asked for, for symbols
  -- of the worker, and ends no attempt with a fatal status, and no stop comes, the feed does not fail
  -- and takes all commands of all attempts, as long as the attempts that find the partition held by
  -- another subscriber are at most as many as `max_already_exists_retries` leaves.
  pub run-Serves :
      (attempts : List (Attempt pb)) (f : Feed)
      → Serves f f.last attempts
      → f.failure ≡ none
      → pos (f.already_exists_retries + busy attempts) ≤ℤ f.max_retries
      → let g = run pb attempts f in (g.failure ≡ none) × Taken pb f (all_commands pb attempts) g
  run-Serves attempts f h fine few =
      let ok = run-fine attempts f h fine few in
      let (taken, rest, e, t, all) = run-Runs pb attempts f in
      let none_left = all (never_stopped f f.last attempts h) ok in
      let same : all_commands pb attempts ≡ taken =
        e ∙ ap (λ xs. taken ++ xs) none_left ∙ append-nil taken in
      (ok, rw same t)
