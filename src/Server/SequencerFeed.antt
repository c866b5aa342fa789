-- ===== src/Server/SequencerFeed.antt =====
-- class SequencerFeed (server/include/server/sequencer_feed.hpp, server/src/sequencer_feed.cpp): the
-- thread that reads the sequenced commands of a partition and submits them to the worker. The gRPC
-- stream is a parameter: an attempt to subscribe is given as the commands that `Read` returns, the
-- status of `Finish`, and when a call of `stop` is seen. `none` stands for an exception.
pub mod Taking
pub mod Attempts
pub mod Retrying
pub mod GivingUp
use Prim.Native.String.{String}
use order_book_engine.Prelude.{
  ℕ, ℤ, pos, ◌+◌, ◌-◌, ◌%◌, Bool, true, false, not, Option, none, some, List, [], ◌∷◌, ◌++◌, ◌&&◌,
  if◌then◌else◌, ◌==◌, ltb_ℤ, is_some,
}
use order_book_engine.Book.State.{word}
use order_book_engine.Server.Commands.{Command, Stamped}
use order_book_engine.Server.Worker.{Worker, owns, submit, is_empty_id}
use order_book_engine.Server.Protobuf.{Protobuf}
use order_book_engine.Server.Codec.{DecodeResult, decode_body}

-- The callbacks `log` and `on_fatal` are not here: `fail` and the branches that log say it.
pub record FeedOptions : Type 0 where
  pub address : String
  pub from_seq : ℕ
  pub max_already_exists_retries : ℤ

-- pb::SequencedCommand; `ts` is the time after the cast to engine::Timestamp.
pub record SequencedCommand (pb : Protobuf) : Type 0 where
  pub seq : ℕ
  pub symbol : ℕ
  pub client_order_id : String
  pub payload : pb.Payload
  pub ts : ℤ
  pub gateway_id : String
  pub account_id : ℕ

-- grpc::StatusCode, where the code tells its values apart.
pub data StatusCode : Type 0 where
  out_of_range not_found invalid_argument already_exists : StatusCode
  other : StatusCode

-- The first place that sees a call of `stop`: none, the check after `Finish`, or `wait_to_retry`.
pub data Stopping : Type 0 where
  not_stopped after_stream in_wait : Stopping

pub record Attempt (pb : Protobuf) : Type 0 where
  pub commands : List (SequencedCommand pb)
  pub code : StatusCode
  pub stopping : Stopping

-- What a failure's text is made of.
pub data Failure : Type 0 where
  gap : ℕ → ℕ → Failure
  not_owned : ℕ → Failure
  cannot_serve : ℕ → Failure
  configuration : Failure
  seat_taken : Failure

pub data LogLine : Type 0 where
  failed : Failure → LogLine
  skipping : ℕ → String → String → String → LogLine
  exists_retrying : LogLine
  ended_retrying : LogLine

pub record Feed : Type 0 where
  pub worker : Worker
  pub max_retries : ℤ
  pub last : ℕ
  pub failure : Option Failure
  pub already_exists_retries : ℕ
  pub log : List LogLine

unfoldable pub make_feed : Worker → FeedOptions → Option Feed
make_feed w options =
    if is_empty_id options.address
    then none
    else if options.from_seq == 0
    then none
    else some (record {
      worker = w;
      max_retries = options.max_already_exists_retries;
      last = options.from_seq - 1;
      failure = none;
      already_exists_retries = 0;
      log = [];
    })

abbrev pub write_log : LogLine → Feed → Feed
write_log line f = record f { log = f.log ++ line ∷ [] }

abbrev pub fail : Failure → Feed → Feed
fail reason f = write_log (LogLine.failed reason) (record f { failure = some reason })

-- `last.load() + 1`: what is requested, and what is expected next.
abbrev pub expected : Feed → ℕ
expected f = (f.last + 1) % word

module _ (pb : Protobuf) where
  abbrev pub take_decoded : SequencedCommand pb → DecodeResult → Option Command → Feed → Feed
  take_decoded c result none f =
      write_log (LogLine.skipping c.seq c.gateway_id c.client_order_id result.error)
        (record f { last = c.seq; already_exists_retries = 0 })
  take_decoded c result (some command) f = record f {
    worker =
        submit
          (record {
            seq = c.seq;
            ts = c.ts;
            command = command;
            gateway_id = c.gateway_id;
            account_id = c.account_id;
          })
          f.worker;
    last = c.seq;
    already_exists_retries = 0;
  }

  abbrev pub take : SequencedCommand pb → Feed → Feed
  take c f =
      let result = decode_body pb c.symbol c.client_order_id c.payload in
      take_decoded c result result.command f

  -- One turn of the loop on `Read`: whether it ends in a failure, and the state.
  unfoldable pub receive : SequencedCommand pb → Feed → Bool × Feed
  receive c f =
      if not (c.seq == expected f)
      then (true, fail (Failure.gap (expected f) c.seq) f)
      else if not (owns c.symbol f.worker)
      then (true, fail (Failure.not_owned c.symbol) f)
      else (false, take c f)

  abbrev pub unless_fatal : Bool × Feed → (Feed → Bool × Feed) → Bool × Feed
  unless_fatal (true, f) next = (true, f)
  unless_fatal (false, f) next = next f

  unfoldable pub receive_all : List (SequencedCommand pb) → Feed → Bool × Feed
  unfolding receive
  receive_all [] f = (false, f)
  receive_all (c ∷ cs) f = unless_fatal (receive c f) (receive_all cs)

-- After a stream that did not fail: whether to try again, and the state.
abbrev pub end_of_stream : StatusCode → Feed → Bool × Feed
end_of_stream StatusCode.out_of_range f = (false, fail (Failure.cannot_serve (expected f)) f)
end_of_stream StatusCode.not_found f = (false, fail Failure.configuration f)
end_of_stream StatusCode.invalid_argument f = (false, fail Failure.configuration f)
end_of_stream StatusCode.already_exists f =
    let retries = f.already_exists_retries + 1 in
    let g = record f { already_exists_retries = retries } in
    if ltb_ℤ f.max_retries (pos retries)
    then (false, fail Failure.seat_taken g)
    else (true, write_log LogLine.exists_retrying g)
end_of_stream StatusCode.other f =
    (true, write_log LogLine.ended_retrying (record f { already_exists_retries = 0 }))

abbrev pub then_wait : Bool → Bool × Feed → Bool × Feed
then_wait stopped (again, f) = (again && not stopped, f)

abbrev pub finish : StatusCode → Stopping → Bool × Feed → Bool × Feed
finish code stopping (true, f) = (false, f)
finish code Stopping.after_stream (false, f) = (false, f)
finish code Stopping.in_wait (false, f) = then_wait true (end_of_stream code f)
finish code Stopping.not_stopped (false, f) = then_wait false (end_of_stream code f)

module _ (pb : Protobuf) where
  unfoldable pub attempt_once : Attempt pb → Feed → Bool × Feed
  unfolding receive_all
  attempt_once a f = finish a.code a.stopping (receive_all pb a.commands f)

  abbrev pub if_again : Bool × Feed → (Feed → Feed) → Feed
  if_again (true, f) next = next f
  if_again (false, f) next = f

  -- The thread's loop, over the attempts that it makes as long as it goes on.
  unfoldable pub run : List (Attempt pb) → Feed → Feed
  unfolding attempt_once
  run [] f = f
  run (a ∷ attempts) f = if is_some f.failure then f else if_again (attempt_once a f) (run attempts)
