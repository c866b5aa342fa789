-- ===== src/Server/SequencerFeed/Taking.antt =====
-- What the feed submits (server/src/sequencer_feed.cpp): the commands that were taken, in order.
use order_book_engine.Prelude.{
  ℕ, ◌+◌, ◌%◌, Bool, true, false, Option, none, some, List, [], ◌∷◌, ◌++◌, ◌≡◌, ◌≢◌, refl, sym, ap,
  ◌∙◌, ◌⊎◌, inl, inr, ◌==◌, arith, append_assoc, append-nil, Bool-cases, Option-cases,
}
use order_book_engine.Book.State.{word}
use order_book_engine.Server.Commands.{Command, Stamped}
use order_book_engine.Server.Worker.{owns, submit}
use order_book_engine.Server.Protobuf.{Protobuf}
use order_book_engine.Server.Codec.{decode_body}
use order_book_engine.Server.SequencerFeed.{
  SequencedCommand, Failure, Feed, expected, take, receive_all,
}

module _ (pb : Protobuf) where
  -- The commands are numbered on after `last`, modulo 2 ^ 64, and `end` is the last number.
  abbrev pub Follows : ℕ → List (SequencedCommand pb) → ℕ → Type 0
  Follows last [] end = end ≡ last
  Follows last (c ∷ cs) end = (c.seq ≡ (last + 1) % word) × Follows c.seq cs end

  abbrev pub AllOwned : Feed → List (SequencedCommand pb) → Type 0
  AllOwned f [] = Unit
  AllOwned f (c ∷ cs) = (owns c.symbol f.worker ≡ true) × AllOwned f cs

  -- What is submitted for a command: nothing where its payload does not decode.
  abbrev pub item_of : SequencedCommand pb → Option Command → List Stamped
  item_of c none = []
  item_of c (some command) =
      record {
        seq = c.seq;
        ts = c.ts;
        command = command;
        gateway_id = c.gateway_id;
        account_id = c.account_id;
      }
      ∷ []

  abbrev pub items : List (SequencedCommand pb) → List Stamped
  items [] = []
  items (c ∷ cs) =
      item_of c (decode_body pb c.symbol c.client_order_id c.payload).command ++ items cs

  -- The feed went from `f` to `g` by taking the commands `cs`: they are numbered on from its last
  -- number, the worker owns their symbols, and those that decode are the new items of its inbox.
  pub record Taken (f : Feed) (cs : List (SequencedCommand pb)) (g : Feed) : Type 0 where
    pub follows : Follows f.last cs g.last
    pub owned : AllOwned f cs
    pub books : g.worker.books ≡ f.worker.books
    pub inbox : g.worker.inbox ≡ f.worker.inbox ++ items cs

  Follows-append :
      (cs ds : List (SequencedCommand pb)) (a b c : ℕ)
      → Follows a cs b
      → Follows b ds c
      → Follows a (cs ++ ds) c
  Follows-append [] ds a b c h k = ground arith
  Follows-append (x ∷ cs) ds a b c h k = (h.0, Follows-append cs ds x.seq b c h.1 k)

  AllOwned-append :
      (f g : Feed) (cs ds : List (SequencedCommand pb))
      → g.worker.books ≡ f.worker.books
      → AllOwned f cs
      → AllOwned g ds
      → AllOwned f (cs ++ ds)
  unfolding owns
  AllOwned-append f g [] [] same h k = tt
  AllOwned-append f g [] (d ∷ ds) same h k = (rw (← same) k.0, AllOwned-append f g [] ds same h k.1)
  AllOwned-append f g (c ∷ cs) ds same h k = (h.0, AllOwned-append f g cs ds same h.1 k)

  items-append : (cs ds : List (SequencedCommand pb)) → items (cs ++ ds) ≡ items cs ++ items ds
  items-append [] ds = refl
  items-append (c ∷ cs) ds = rw (items-append cs ds) (sym (append_assoc _ (items cs) (items ds)))

  pub Taken-trans :
      {f g h : Feed} {cs ds : List (SequencedCommand pb)}
      → Taken f cs g
      → Taken g ds h
      → Taken f (cs ++ ds) h
  Taken-trans {f} {g} {h} {cs} {ds} t u = record {
    follows = Follows-append cs ds f.last g.last h.last t.follows u.follows;
    owned = AllOwned-append f g cs ds t.books t.owned u.owned;
    books = u.books ∙ t.books;
    inbox =
        u.inbox
        ∙ ap (λ is. is ++ items ds) t.inbox
        ∙ append_assoc f.worker.inbox (items cs) (items ds)
        ∙ ap (λ is. f.worker.inbox ++ is) (sym (items-append cs ds));
  }

  -- Nothing was taken, and the worker is the same.
  pub Taken-nil : (f g : Feed) → g.worker ≡ f.worker → g.last ≡ f.last → Taken f [] g
  Taken-nil f g same last = record {
    follows = last;
    owned = tt;
    books = ap (λ w. w.books) same;
    inbox = ap (λ w. w.inbox) same ∙ sym (append-nil f.worker.inbox);
  }

  take-Taken :
      (c : SequencedCommand pb) (f : Feed)
      → c.seq ≡ expected f
      → owns c.symbol f.worker ≡ true
      → Taken f (c ∷ []) (take pb c f)
  unfolding submit
  take-Taken c f next mine =
      elim (Option-cases (decode_body pb c.symbol c.client_order_id c.payload).command) [
        | inl e ↦ record {
          follows = rw e (next, refl);
          owned = (mine, tt);
          books = rw e refl;
          inbox = rw e (sym (append-nil f.worker.inbox));
        }
        | inr (command, e) ↦ record {
          follows = rw e (next, refl);
          owned = (mine, tt);
          books = rw e refl;
          inbox = rw e refl;
        }
      ]

  take-failure : (c : SequencedCommand pb) (f : Feed) → (take pb c f).failure ≡ f.failure
  take-failure c f =
      elim (Option-cases (decode_body pb c.symbol c.client_order_id c.payload).command) [
        | inl e ↦ rw e refl
        | inr (command, e) ↦ rw e refl
      ]

  -- Why the loop on `Read` left `g` with the commands `rest` not taken.
  abbrev pub Stopped : Bool → Feed → List (SequencedCommand pb) → Type 0
  Stopped false g rest = (g.failure ≡ none) × (rest ≡ [])
  Stopped true g [] = Bool.true ≡ false
  Stopped true g (c ∷ cs) =
      ((c.seq ≢ expected g) × (g.failure ≡ some (Failure.gap (expected g) c.seq)))
      ⊎ ((c.seq ≡ expected g)
          × (owns c.symbol g.worker ≡ false)
          × (g.failure ≡ some (Failure.not_owned c.symbol)))

  abbrev pub Receives : List (SequencedCommand pb) → Feed → Bool × Feed → Type 0
  Receives cs f (fatal, g) =
      (taken : List (SequencedCommand pb)) × (rest : List (SequencedCommand pb)) × (cs
        ≡ taken ++ rest)
      × Taken f taken g
      × Stopped fatal g rest

  receive-go :
      (c : SequencedCommand pb) (cs : List (SequencedCommand pb)) (f : Feed) (r : Bool × Feed)
      → Taken f (c ∷ []) (take pb c f)
      → Receives cs (take pb c f) r
      → Receives (c ∷ cs) f r
  receive-go c cs f (fatal, g) t (taken, rest, e, u, why) =
      (c ∷ taken, rest, ap (λ xs. c ∷ xs) e, Taken-trans t u, why)

  -- Of the commands that a stream delivers the feed takes the first ones: all of them, without a
  -- failure; or those before the first one that is not numbered next, or whose symbol the worker does
  -- not own, and then it has failed and says which of the two it was.
  pub receive_all-Receives :
      (cs : List (SequencedCommand pb)) (f : Feed)
      → f.failure ≡ none
      → Receives cs f (receive_all pb cs f)
  unfolding receive_all
  receive_all-Receives [] f fine = ([], [], refl, Taken-nil f f refl refl, (fine, refl))
  receive_all-Receives (c ∷ cs) f fine = elim (Bool-cases (c.seq == expected f)) [
    | inr other ↦
        rw other
          ([], c ∷ cs, refl, Taken-nil f _ refl refl, inl ((λ same. absurd (ground arith)), refl))
    | inl numbered ↦
        let next : c.seq ≡ expected f = ground arith in
        elim (Bool-cases (owns c.symbol f.worker)) [
          | inr other ↦
              rw (numbered, other)
                ([], c ∷ cs, refl, Taken-nil f _ refl refl, inr (next, other, refl))
          | inl mine ↦
              rw (numbered, mine)
                (receive-go c cs f _ (take-Taken c f next mine)
                  (receive_all-Receives cs (take pb c f) (take-failure c f ∙ fine)))
        ]
  ]
