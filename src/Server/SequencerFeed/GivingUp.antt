-- ===== src/Server/SequencerFeed/GivingUp.antt =====
-- When the feed gives up (server/src/sequencer_feed.cpp).
use order_book_engine.Prelude.{
  ℕ, suc, length, ◌+◌, ◌≤ℤ◌, true, false, none, some, List, [], ◌∷◌, ◌++◌, ◌≡◌, refl, subst, ltb_ℤ,
  pos, inl, inr, if◌then◌else◌, is_some, arith, Bool-cases,
}
use order_book_engine.Server.Protobuf.{Protobuf}
use order_book_engine.Server.SequencerFeed.{
  StatusCode, Stopping, Attempt, Failure, Feed, LogLine, receive_all, end_of_stream, then_wait,
  if_again, run,
}

module _ (pb : Protobuf) where
  -- The partition is held by another subscriber.
  abbrev pub AllBusy : List (Attempt pb) → Type 0
  AllBusy [] = Unit
  AllBusy (a ∷ attempts) =
      (a.commands ≡ [])
      × (a.code ≡ StatusCode.already_exists)
      × (a.stopping ≡ Stopping.not_stopped)
      × AllBusy attempts

  abbrev pub GivesUp : Feed → ℕ → Feed → Type 0
  GivesUp f n g =
      (g.worker ≡ f.worker)
      × (g.last ≡ f.last)
      × (g.failure ≡ (
          if ltb_ℤ f.max_retries (pos (f.already_exists_retries + n))
          then some Failure.seat_taken
          else none))

  run-busy :
      (a : Attempt pb) (attempts : List (Attempt pb)) (f : Feed)
      → AllBusy (a ∷ attempts)
      → f.failure ≡ none
      → run pb (a ∷ attempts) f
        ≡ if_again pb
            (then_wait false (end_of_stream StatusCode.already_exists f))
            (run pb attempts)
  unfolding run receive_all
  run-busy a attempts f (empty, held, calm, more) fine =
      let going : is_some f.failure ≡ false = ground arith in rw (going, empty, calm, held) refl

  -- Where every attempt finds the partition held by another subscriber, nothing is submitted, and the
  -- feed fails exactly when the attempts in a row are more than `max_already_exists_retries`.
  pub run-GivesUp :
      (attempts : List (Attempt pb)) (f : Feed)
      → AllBusy attempts
      → f.failure ≡ none
      → pos f.already_exists_retries ≤ℤ f.max_retries
      → GivesUp f (length attempts) (run pb attempts f)
  unfolding run receive_all
  run-GivesUp [] f h fine few =
      let below : ltb_ℤ f.max_retries (pos (f.already_exists_retries + 0)) ≡ false = ground arith in
      (refl, refl, rw below fine)
  run-GivesUp (a ∷ attempts) f h fine few =
      let retries = f.already_exists_retries + 1 in
      rw (run-busy a attempts f h fine) (elim (Bool-cases (ltb_ℤ f.max_retries (pos retries))) [
        | inl many ↦
            let above : ltb_ℤ f.max_retries (pos (f.already_exists_retries + suc (length attempts)))
                ≡ true =
              ground arith in
            rw (many, above) (refl, refl, refl)
        | inr others ↦
            let g = record f {
              already_exists_retries = retries;
              log = f.log ++ LogLine.exists_retrying ∷ [];
            } in
            let (w, l, e) = run-GivesUp attempts g h.3 fine (ground arith) in
            let total : retries + length attempts
                ≡ f.already_exists_retries + suc (length attempts) =
              omega arith in
            rw others (
              w,
              l,
              subst
                  (λ n.
                    (run pb attempts g).failure
                    ≡ (if ltb_ℤ f.max_retries (pos n) then some Failure.seat_taken else none))
                  total e,
            )
      ])
