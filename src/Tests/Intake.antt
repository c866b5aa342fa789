-- ===== src/Tests/Intake.antt =====
-- The theorems on the codec and on the feed at a concrete input.
use order_book_engine.Prelude.{none, [], ◌∷◌, ◌≡◌, refl, arith}
use order_book_engine.Server.SequencerFeed.{receive_all, run}
use order_book_engine.Server.SequencerFeed.Taking.{Taken, Receives, receive_all-Receives}
use order_book_engine.Server.SequencerFeed.Attempts.{all_commands, Runs, run-Runs}
use order_book_engine.Server.SequencerFeed.Retrying.{run-Serves}
use order_book_engine.Server.SequencerFeed.GivingUp.{GivesUp, run-GivesUp}
use order_book_engine.Server.Codec.{decoded, decode_body}
use order_book_engine.Server.Codec.RoundTrip.{
  received, Decodes, decode_body-encode_body, decode_body-Decodes,
}
use order_book_engine.Tests.Wire.{
  wire, intake, wired, wired_payload, sequenced, feed, attempts, refused,
}

decode_body-encode_body_example :
    decode_body wire 3 "b" wired_payload ≡ decoded (received 3 "b" wired)
unfolding intake
decode_body-encode_body_example =
    decode_body-encode_body wire 3 "b" wired wired_payload refl (omega arith)

decode_body-Decodes_example : Decodes wire 3 "b" (decode_body wire 3 "b" wired_payload)
decode_body-Decodes_example = decode_body-Decodes wire 3 "b" wired_payload

receive_all-Receives_example :
    let cs = sequenced 5 1 wired_payload ∷ sequenced 7 1 wired_payload ∷ [] in
    Receives wire cs feed (receive_all wire cs feed)
receive_all-Receives_example =
    receive_all-Receives wire (sequenced 5 1 wired_payload ∷ sequenced 7 1 wired_payload ∷ []) feed
      refl

run-Runs_example : Runs wire attempts feed (run wire attempts feed)
run-Runs_example = run-Runs wire attempts feed

run-Serves_example :
    let g = run wire attempts feed in
    (g.failure ≡ none) × Taken wire feed (all_commands wire attempts) g
unfolding intake
run-Serves_example =
    run-Serves wire attempts feed
      (
        6,
        (refl, (refl, refl)),
        (refl, (refl, tt)),
        refl,
        refl,
        (6, refl, tt, refl, refl, (7, (refl, refl), (refl, tt), refl, refl, tt)),
      )
      refl (omega arith)

run-GivesUp_example :
    let held = refused ∷ refused ∷ refused ∷ [] in GivesUp wire feed 3 (run wire held feed)
unfolding intake
run-GivesUp_example =
    run-GivesUp wire (refused ∷ refused ∷ refused ∷ []) feed
      ((refl, refl, refl, (refl, refl, refl, (refl, refl, refl, tt)))) refl (omega arith)
