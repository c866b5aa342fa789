-- ===== src/Tests/Wire.antt =====
-- Message classes that do what the codec relies on, and commands that a sequencer sends.
use order_book_engine.Prelude.{
  ℕ, pos, Bool, false, ◌||◌, Option, none, some, List, [], ◌∷◌, ◌≢◌, refl, arith,
}
use order_book_engine.Types.{sell, limit}
use order_book_engine.Server.Commands.{Command}
use order_book_engine.Server.Worker.{submit, owns}
use order_book_engine.Server.Protobuf.{Protobuf, BodyCase, Field, ValueOf, written, same_optional}
use order_book_engine.Server.Codec.{encode_body, decode_body}
use order_book_engine.Server.SequencerFeed.{
  SequencedCommand, StatusCode, Stopping, Attempt, Feed, receive, receive_all, attempt_once, run,
}
use order_book_engine.Tests.Data.{engine, worker}

pub record Fields : Type 0 where
  pub value : (f : Field) → ValueOf f
  pub present : Field → Bool

abbrev zero_of : (f : Field) → ValueOf f
zero_of Field.id = 0
zero_of Field.owner_id = 0
zero_of Field.requester = 0
zero_of Field.order_id = 0
zero_of Field.side = pos 0
zero_of Field.type = pos 0
zero_of Field.price = pos 0
zero_of Field.quantity = pos 0
zero_of Field.new_price = pos 0
zero_of Field.new_quantity = pos 0
zero_of Field.stop_price = pos 0
zero_of Field.limit_price = pos 0
zero_of Field.new_stop_price = pos 0
zero_of Field.new_limit_price = pos 0

pub record OneOf : Type 0 where
  pub label : BodyCase
  pub fields : Fields

pub two_not_one : pos 2 ≢ pos 1
two_not_one e = absurd (ground arith)

-- Bytes are a message, or do not parse.
abbrev pub wire : Protobuf
wire = record {
  Payload = Option OneOf;
  Body = OneOf;
  Message = Fields;
  size = λ p. 20;
  serialize = λ b. some b;
  parse = λ p. p;
  parse_serialize = λ b. refl;
  body_case = λ b. b.label;
  sub_message = λ l b. b.fields;
  with_message = λ l m. record { label = BodyCase.label l; fields = m };
  body_case_with = λ l m. refl;
  sub_message_with = λ l m. refl;
  new_message = record { value = zero_of; present = λ f. false };
  get = λ f m. m.value f;
  set = λ g v m. record {
    value = λ f. written f g v (m.value f);
    present = λ f. same_optional f g || m.present f;
  };
  has = λ f m. m.present f;
  get_set = λ f g v m. refl;
  has_set = λ f g v m e. refl;
  has_new = λ f e. refl;
  side_buy = pos 1;
  side_sell = pos 2;
  order_type_limit = pos 1;
  order_type_market = pos 2;
  sides_differ = two_not_one;
  order_types_differ = two_not_one;
}

-- Unfolds the model of the codec and of the feed.
unfoldable pub intake : Unit {0}
unfolding engine encode_body decode_body submit owns receive receive_all attempt_once run
intake = tt

abbrev pub wired : Command
wired = Command.new_order (record {
  client_order_id = "a1";
  symbol = 1;
  order = record {
    id = 9;
    owner_id = 7;
    side = sell;
    type = limit;
    price = some (pos 50);
    quantity = pos 3;
    filled = pos 2;
  };
})

abbrev pub wired_payload : Option OneOf
unfolding intake
wired_payload = elim (encode_body wire wired) [ none ↦ none | some p ↦ p ]

abbrev pub sequenced : ℕ → ℕ → Option OneOf → SequencedCommand wire
sequenced seq symbol payload = record {
  seq = seq;
  symbol = symbol;
  client_order_id = "a1";
  payload = payload;
  ts = pos 10;
  gateway_id = "g";
  account_id = 4;
}

abbrev pub feed : Feed
feed = record {
  worker = worker;
  max_retries = pos 2;
  last = 4;
  failure = none;
  already_exists_retries = 0;
  log = [];
}

-- A command that decodes and one that does not, a refused attempt, and one more command.
abbrev pub attempts : List (Attempt wire)
attempts =
    record {
      commands = sequenced 5 1 wired_payload ∷ sequenced 6 1 none ∷ [];
      code = StatusCode.other;
      stopping = Stopping.not_stopped;
    }
    ∷ record { commands = []; code = StatusCode.already_exists; stopping = Stopping.not_stopped }
    ∷ record {
      commands = sequenced 7 1 wired_payload ∷ [];
      code = StatusCode.other;
      stopping = Stopping.not_stopped;
    }
    ∷ []

abbrev pub refused : Attempt wire
refused = record {
  commands = [];
  code = StatusCode.already_exists;
  stopping = Stopping.not_stopped;
}
