-- ===== src/Server/SequencerFeed/Attempts.antt =====
-- What the feed takes over several attempts to subscribe (server/src/sequencer_feed.cpp).
use order_book_engine.Prelude.{
  ◌+◌, Bool, true, false, not, none, List, [], ◌∷◌, ◌++◌, ◌&&◌, ◌≡◌, ◌≢◌, refl, sym, ap, subst,
  ltb_ℤ, pos, ◌∙◌, ◌⊎◌, inl, inr, is_some, arith, append_assoc, append-nil, Bool-cases,
}
use order_book_engine.Server.Protobuf.{Protobuf}
use order_book_engine.Server.SequencerFeed.{
  SequencedCommand, StatusCode, Stopping, Attempt, Feed, end_of_stream, then_wait, finish, if_again,
  run,
}
use order_book_engine.Server.SequencerFeed.Taking.{
  Taken, Taken-trans, Taken-nil, Stopped, Receives, receive_all-Receives,
}

abbrev pub goes_on : Stopping → Bool
goes_on Stopping.not_stopped = true
goes_on _ = false

-- Only the failure, the retries and the log differ.
abbrev pub Kept : Feed → Feed → Type 0
Kept f g = (g.worker ≡ f.worker) × (g.last ≡ f.last)

module _ (pb : Protobuf) where
  abbrev pub all_commands : List (Attempt pb) → List (SequencedCommand pb)
  all_commands [] = []
  all_commands (a ∷ attempts) = a.commands ++ all_commands attempts

  abbrev pub is_never_stopped : List (Attempt pb) → Bool
  is_never_stopped [] = true
  is_never_stopped (a ∷ attempts) = goes_on a.stopping && is_never_stopped attempts

  -- What was taken over several attempts.
  abbrev pub Runs : List (Attempt pb) → Feed → Feed → Type 0
  Runs attempts f g =
      (taken : List (SequencedCommand pb)) × (rest : List (SequencedCommand pb)) × (all_commands
          attempts
        ≡ taken ++ rest)
      × Taken pb f taken g
      × (is_never_stopped attempts ≡ true → g.failure ≡ none → rest ≡ [])

  abbrev pub Ends : Stopping → Feed → Bool × Feed → Type 0
  Ends st f (again, g) =
      Kept f g
      × ((again ≡ true) × (g.failure ≡ none)
          ⊎ ((again ≡ false) × (goes_on st ≡ true → g.failure ≢ none)))

  end_of_stream-Ends :
      (code : StatusCode) (f : Feed)
      → f.failure ≡ none
      → Ends Stopping.not_stopped f (end_of_stream code f)
  end_of_stream-Ends StatusCode.out_of_range f fine =
      ((refl, refl), inr (refl, λ _ e. absurd (ground arith)))
  end_of_stream-Ends StatusCode.not_found f fine =
      ((refl, refl), inr (refl, λ _ e. absurd (ground arith)))
  end_of_stream-Ends StatusCode.invalid_argument f fine =
      ((refl, refl), inr (refl, λ _ e. absurd (ground arith)))
  end_of_stream-Ends StatusCode.already_exists f fine =
      elim (Bool-cases (ltb_ℤ f.max_retries (pos (f.already_exists_retries + 1)))) [
        | inl many ↦ rw many ((refl, refl), inr (refl, λ _ e. absurd (ground arith)))
        | inr few ↦ rw few ((refl, refl), inl (refl, fine))
      ]
  end_of_stream-Ends StatusCode.other f fine = ((refl, refl), inl (refl, fine))

  then_wait-Ends :
      (f : Feed) (r : Bool × Feed) (stopped : Bool) (st : Stopping)
      → goes_on st ≡ not stopped
      → Ends Stopping.not_stopped f r
      → Ends st f (then_wait stopped r)
  then_wait-Ends f (again, g) false st e (kept, how) = (kept, ground arith)
  then_wait-Ends f (again, g) true st e (kept, how) = (kept, ground arith)

  finish-Ends :
      (code : StatusCode) (st : Stopping) (f : Feed)
      → f.failure ≡ none
      → Ends st f (finish code st (false, f))
  finish-Ends code Stopping.after_stream f fine =
      ((refl, refl), inr (refl, λ e _. absurd (ground arith)))
  finish-Ends code Stopping.in_wait f fine =
      then_wait-Ends f (end_of_stream code f) true Stopping.in_wait refl
        (end_of_stream-Ends code f fine)
  finish-Ends code Stopping.not_stopped f fine =
      then_wait-Ends f (end_of_stream code f) false Stopping.not_stopped refl
        (end_of_stream-Ends code f fine)

  Taken-Kept :
      (f g h : Feed) (cs : List (SequencedCommand pb))
      → Taken pb f cs g
      → Kept g h
      → Taken pb f cs h
  Taken-Kept f g h cs t (same, last) =
      subst (λ xs. Taken pb f xs h) (append-nil cs) (Taken-trans pb t (Taken-nil pb g h same last))

  Stopped-fails :
      (g : Feed) (rest : List (SequencedCommand pb)) → Stopped pb true g rest → g.failure ≢ none
  Stopped-fails g [] why fine = absurd (ground arith)
  Stopped-fails g (c ∷ cs) why fine = absurd (ground arith)

  again-Runs :
      (a : Attempt pb) (attempts : List (Attempt pb)) (f g : Feed) (r : Bool × Feed)
      (taken : List (SequencedCommand pb))
      → a.commands ≡ taken
      → Taken pb f taken g
      → Ends a.stopping g r
      → ((h : Feed) → Runs attempts h (run pb attempts h))
      → Runs (a ∷ attempts) f (if_again pb r (run pb attempts))
  again-Runs a attempts f g (true, h) taken all t (kept, how) next =
      let (more, rest, e, u, done) = next h in
      (
        taken ++ more,
        rest,
        rw (all, e) (sym (append_assoc taken more rest)),
        Taken-trans pb (Taken-Kept f g h taken t kept) u,
        λ calm fine. done (ground arith) fine,
      )
  again-Runs a attempts f g (false, h) taken all t (kept, how) next = (
    taken,
    all_commands attempts,
    rw all refl,
    Taken-Kept f g h taken t kept,
    λ calm fine. absurd (ground arith),
  )

  step-Runs :
      (a : Attempt pb) (attempts : List (Attempt pb)) (f : Feed) (fatal : Bool) (g : Feed)
      → Receives pb a.commands f (fatal, g)
      → ((h : Feed) → Runs attempts h (run pb attempts h))
      → Runs (a ∷ attempts) f (if_again pb (finish a.code a.stopping (fatal, g)) (run pb attempts))
  step-Runs a attempts f true g (taken, rest, e, t, why) next = (
    taken,
    rest ++ all_commands attempts,
    ap (λ xs. xs ++ all_commands attempts) e ∙ append_assoc taken rest (all_commands attempts),
    t,
    λ _ fine. absurd (Stopped-fails g rest why fine),
  )
  step-Runs a attempts f false g (taken, rest, e, t, (fine, done)) next =
      let all : a.commands ≡ taken = e ∙ ap (λ xs. taken ++ xs) done ∙ append-nil taken in
      let ended = finish-Ends a.code a.stopping g fine in
      again-Runs a attempts f g _ taken all t ended next

  -- Over any number of attempts to subscribe the feed takes the first ones of all the commands that
  -- the streams deliver: numbered on from its last number without a gap across the attempts, each for
  -- a symbol that the worker owns; the worker's inbox gets those that decode, once each and in order.
  -- Where no stop came and the feed did not fail, it took all of them.
  pub run-Runs : (attempts : List (Attempt pb)) (f : Feed) → Runs attempts f (run pb attempts f)
  unfolding run
  run-Runs [] f = ([], [], refl, Taken-nil pb f f refl refl, λ _ _. refl)
  run-Runs (a ∷ attempts) f = elim (Bool-cases (is_some f.failure)) [
    | inl e ↦ rw e (
      [],
      all_commands (a ∷ attempts),
      refl,
      Taken-nil pb f f refl refl,
      λ _ fine. absurd (ground arith),
    )
    | inr e ↦
        let fine : f.failure ≡ none = ground arith in
        rw e (
          step-Runs a attempts f _ _ (receive_all-Receives pb a.commands f fine)
            (run-Runs attempts))
  ]
