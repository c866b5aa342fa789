-- ===== src/Server/Codec.antt =====
-- The codec of command payloads (server/src/codec.cpp, server/include/server/codec.hpp), over the
-- generated message classes. `none` stands for an exception. The message that a label names is the
-- innermost one: `new_order().order()` and `place_stop().stop()` for the two that are nested.
pub mod RoundTrip
use Prim.Native.String.{String}
use order_book_engine.Prelude.{
  ℕ, ℤ, pos, ltb, Bool, true, false, Option, none, some, if◌then◌else◌, ◌==ℤ◌,
}
use order_book_engine.Types.{Side, OrderType, Order, StopOrder}
use order_book_engine.Server.Commands.{
  NewOrder, CancelOrder, ModifyOrder, PlaceStop, CancelStop, ModifyStop, Command,
}
use order_book_engine.Server.Protobuf.{Protobuf, Label, BodyCase, Field}

pub record DecodeResult : Type 0 where
  pub command : Option Command
  pub error : String

abbrev pub failure : String → DecodeResult
failure message = record { command = none; error = message }

abbrev pub decoded : Command → DecodeResult
decoded c = record { command = some c; error = String.[] }

-- INT_MAX
abbrev pub int_max : ℕ
int_max = 2147483647

module _ (pb : Protobuf) where
  open pb use {
    Payload, Body, Message, size, serialize, parse, body_case, sub_message, with_message,
    new_message, get, set, has, side_buy, side_sell, order_type_limit, order_type_market,
  }

  abbrev pub to_pb_side : Side → ℤ
  to_pb_side Side.buy = side_buy
  to_pb_side Side.sell = side_sell

  abbrev pub from_pb_side : ℤ → Option Side
  from_pb_side v =
      if v ==ℤ side_buy then some Side.buy else if v ==ℤ side_sell then some Side.sell else none

  abbrev pub to_pb_order_type : OrderType → ℤ
  to_pb_order_type OrderType.limit = order_type_limit
  to_pb_order_type OrderType.market = order_type_market

  abbrev pub from_pb_order_type : ℤ → Option OrderType
  from_pb_order_type v =
      if v ==ℤ order_type_limit
      then some OrderType.limit
      else if v ==ℤ order_type_market
      then some OrderType.market
      else none

  -- `if (value) p->set_…(*value)`
  abbrev pub set_price : Option ℤ → Message → Message
  set_price none m = m
  set_price (some v) m = set Field.price v m

  abbrev pub set_limit_price : Option ℤ → Message → Message
  set_limit_price none m = m
  set_limit_price (some v) m = set Field.limit_price v m

  abbrev pub set_new_limit_price : Option ℤ → Message → Message
  set_new_limit_price none m = m
  set_new_limit_price (some v) m = set Field.new_limit_price v m

  abbrev pub new_order_message : Order → Message
  new_order_message o =
      let p = set Field.id o.id new_message in
      let p = set Field.owner_id o.owner_id p in
      let p = set Field.side (to_pb_side o.side) p in
      let p = set Field.type (to_pb_order_type o.type) p in
      let p = set Field.quantity o.quantity p in set_price o.price p

  abbrev pub by_requester : ℕ → ℕ → Message
  by_requester requester order_id =
      let p = set Field.requester requester new_message in set Field.order_id order_id p

  abbrev pub modify_order_message : ModifyOrder → Message
  modify_order_message arg =
      let p = by_requester arg.requester arg.order_id in
      let p = set Field.new_price arg.new_price p in set Field.new_quantity arg.new_quantity p

  abbrev pub place_stop_message : StopOrder → Message
  place_stop_message o =
      let p = set Field.id o.id new_message in
      let p = set Field.owner_id o.owner_id p in
      let p = set Field.side (to_pb_side o.side) p in
      let p = set Field.stop_price o.stop_price p in
      let p = set Field.quantity o.quantity p in set_limit_price o.limit_price p

  abbrev pub modify_stop_message : ModifyStop → Message
  modify_stop_message arg =
      let p = by_requester arg.requester arg.order_id in
      let p = set Field.new_stop_price arg.new_stop_price p in
      let p = set_new_limit_price arg.new_limit_price p in set Field.new_quantity arg.new_quantity p

  abbrev pub body_of : Command → Option Body
  body_of (Command.new_order arg) =
      some (with_message Label.new_order (new_order_message arg.order))
  body_of (Command.cancel_order arg) =
      some (with_message Label.cancel_order (by_requester arg.requester arg.order_id))
  body_of (Command.modify_order arg) =
      some (with_message Label.modify_order (modify_order_message arg))
  body_of (Command.place_stop arg) =
      some (with_message Label.place_stop (place_stop_message arg.stop))
  body_of (Command.cancel_stop arg) =
      some (with_message Label.cancel_stop (by_requester arg.requester arg.order_id))
  body_of (Command.modify_stop arg) =
      some (with_message Label.modify_stop (modify_stop_message arg))
  body_of Command.shutdown = none
  body_of (Command.take_snapshot arg) = none

  abbrev pub serialized : Option Body → Option Payload
  serialized none = none
  serialized (some body) = some (serialize body)

  unfoldable pub encode_body : Command → Option Payload
  encode_body command = serialized (body_of command)

  -- `p.has_…() ? std::optional{p.…()} : std::nullopt`
  abbrev pub optional_price : Message → Option ℤ
  optional_price p = if has Field.price p then some (get Field.price p) else none

  abbrev pub optional_limit_price : Message → Option ℤ
  optional_limit_price p = if has Field.limit_price p then some (get Field.limit_price p) else none

  abbrev pub optional_new_limit_price : Message → Option ℤ
  optional_new_limit_price p =
      if has Field.new_limit_price p then some (get Field.new_limit_price p) else none

  abbrev pub decode_typed : ℕ → String → Message → Side → Option OrderType → DecodeResult
  decode_typed symbol client_order_id p side none = failure "invalid order type"
  decode_typed symbol client_order_id p side (some type) = decoded (
      Command.new_order (record {
        client_order_id = client_order_id;
        symbol = symbol;
        order = record {
          id = get Field.id p;
          owner_id = get Field.owner_id p;
          side = side;
          type = type;
          price = optional_price p;
          quantity = get Field.quantity p;
          filled = pos 0;
        };
      }))

  abbrev pub decode_order : ℕ → String → Message → Option Side → DecodeResult
  decode_order symbol client_order_id p none = failure "invalid order side"
  decode_order symbol client_order_id p (some side) =
      decode_typed symbol client_order_id p side (from_pb_order_type (get Field.type p))

  abbrev pub decode_stop : ℕ → String → Message → Option Side → DecodeResult
  decode_stop symbol client_order_id p none = failure "invalid stop side"
  decode_stop symbol client_order_id p (some side) = decoded (
      Command.place_stop (record {
        client_order_id = client_order_id;
        symbol = symbol;
        stop = record {
          id = get Field.id p;
          owner_id = get Field.owner_id p;
          side = side;
          stop_price = get Field.stop_price p;
          quantity = get Field.quantity p;
          limit_price = optional_limit_price p;
        };
      }))

  abbrev pub decode_label : ℕ → String → Label → Message → DecodeResult
  decode_label symbol client_order_id Label.new_order p =
      decode_order symbol client_order_id p (from_pb_side (get Field.side p))
  decode_label symbol client_order_id Label.cancel_order p = decoded (
      Command.cancel_order (record {
        client_order_id = client_order_id;
        symbol = symbol;
        requester = get Field.requester p;
        order_id = get Field.order_id p;
      }))
  decode_label symbol client_order_id Label.modify_order p = decoded (
      Command.modify_order (record {
        client_order_id = client_order_id;
        symbol = symbol;
        requester = get Field.requester p;
        order_id = get Field.order_id p;
        new_price = get Field.new_price p;
        new_quantity = get Field.new_quantity p;
      }))
  decode_label symbol client_order_id Label.place_stop p =
      decode_stop symbol client_order_id p (from_pb_side (get Field.side p))
  decode_label symbol client_order_id Label.cancel_stop p = decoded (
      Command.cancel_stop (record {
        client_order_id = client_order_id;
        symbol = symbol;
        requester = get Field.requester p;
        order_id = get Field.order_id p;
      }))
  decode_label symbol client_order_id Label.modify_stop p = decoded (
      Command.modify_stop (record {
        client_order_id = client_order_id;
        symbol = symbol;
        requester = get Field.requester p;
        order_id = get Field.order_id p;
        new_stop_price = get Field.new_stop_price p;
        new_limit_price = optional_new_limit_price p;
        new_quantity = get Field.new_quantity p;
      }))

  -- The switch on `body.body_case()`.
  abbrev pub decode_case : ℕ → String → Body → BodyCase → DecodeResult
  decode_case symbol client_order_id body (BodyCase.label l) =
      decode_label symbol client_order_id l (sub_message l body)
  decode_case symbol client_order_id body BodyCase.not_set = failure "empty command body"
  decode_case symbol client_order_id body BodyCase.unlisted = failure "unknown command body"

  abbrev pub decode_parsed : ℕ → String → Option Body → DecodeResult
  decode_parsed symbol client_order_id none = failure "payload does not parse"
  decode_parsed symbol client_order_id (some body) =
      decode_case symbol client_order_id body (body_case body)

  unfoldable pub decode_body : ℕ → String → Payload → DecodeResult
  decode_body symbol client_order_id payload =
      if ltb int_max (size payload)
      then failure "payload exceeds maximum protobuf size"
      else decode_parsed symbol client_order_id (parse payload)
