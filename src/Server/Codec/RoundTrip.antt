-- ===== src/Server/Codec/RoundTrip.antt =====
-- Payloads that were encoded, and what a payload can decode to (server/src/codec.cpp).
use Prim.Native.String.{String}
use order_book_engine.Prelude.{
  ℕ, pos, ltb, true, false, Option, none, some, ◌≡◌, refl, sym, ◌∙◌, ◌≤◌, arith, is_some,
  Bool-cases, Option-cases, ◌⊎◌, inl, inr,
}
use order_book_engine.Types.{Side, OrderType, Order, StopOrder}
use order_book_engine.Server.Commands.{ModifyStop, Command}
use order_book_engine.Server.Worker.{is_empty_id}
use order_book_engine.Server.Protobuf.{Protobuf, Label, BodyCase, Field}
use order_book_engine.Server.Codec.{
  decode_order, decode_stop, decode_case, from_pb_order_type, to_pb_order_type, decode_label,
  new_order_message, place_stop_message, modify_stop_message, DecodeResult, decoded, int_max,
  encode_body, decode_body, from_pb_side, to_pb_side,
}

-- The command that is served where `c` was encoded.
abbrev pub received : ℕ → String → Command → Command
received symbol client_id (Command.new_order arg) = Command.new_order (record arg {
  client_order_id = client_id;
  symbol = symbol;
  order = record (arg.order) { filled = pos 0 };
})
received symbol client_id (Command.cancel_order arg) =
    Command.cancel_order (record arg { client_order_id = client_id; symbol = symbol })
received symbol client_id (Command.modify_order arg) =
    Command.modify_order (record arg { client_order_id = client_id; symbol = symbol })
received symbol client_id (Command.place_stop arg) =
    Command.place_stop (record arg { client_order_id = client_id; symbol = symbol })
received symbol client_id (Command.cancel_stop arg) =
    Command.cancel_stop (record arg { client_order_id = client_id; symbol = symbol })
received symbol client_id (Command.modify_stop arg) =
    Command.modify_stop (record arg { client_order_id = client_id; symbol = symbol })
received symbol client_id Command.shutdown = Command.shutdown
received symbol client_id (Command.take_snapshot arg) = Command.take_snapshot arg

module _ (pb : Protobuf) where
  open pb use {
    Payload, Body, Message, size, serialize, parse, body_case, sub_message, with_message,
    new_message, get, set, has, side_buy, side_sell, order_type_limit, order_type_market, get_set,
    has_set, has_new, parse_serialize, body_case_with, sub_message_with,
  }

  from_to_side : (s : Side) → from_pb_side pb (to_pb_side pb s) ≡ some s
  from_to_side Side.buy = ground arith
  from_to_side Side.sell = ground (arith, pb.sides_differ)

  from_to_order_type : (t : OrderType) → from_pb_order_type pb (to_pb_order_type pb t) ≡ some t
  from_to_order_type OrderType.limit = ground arith
  from_to_order_type OrderType.market = ground (arith, pb.order_types_differ)

  decode_label-order :
      (symbol : ℕ) (client_id : String) (o : Order)
      → decode_label pb symbol client_id Label.new_order (new_order_message pb o)
        ≡ decoded (
            Command.new_order (record {
              client_order_id = client_id;
              symbol = symbol;
              order = record o { filled = pos 0 };
            }))
  decode_label-order symbol client_id o = elim (Option-cases o.price) [
    | inl e ↦
        rw e (simp (get_set, has_set, has_new, from_to_side o.side, from_to_order_type o.type) refl)
    | inr (v, e) ↦
        rw e (simp (get_set, has_set, from_to_side o.side, from_to_order_type o.type) refl)
  ]

  decode_label-stop :
      (symbol : ℕ) (client_id : String) (o : StopOrder)
      → decode_label pb symbol client_id Label.place_stop (place_stop_message pb o)
        ≡ decoded
            (Command.place_stop (record { client_order_id = client_id; symbol = symbol; stop = o }))
  decode_label-stop symbol client_id o = elim (Option-cases o.limit_price) [
    | inl e ↦ rw e (simp (get_set, has_set, has_new, from_to_side o.side) refl)
    | inr (v, e) ↦ rw e (simp (get_set, has_set, from_to_side o.side) refl)
  ]

  decode_label-modify_stop :
      (symbol : ℕ) (client_id : String) (arg : ModifyStop)
      → decode_label pb symbol client_id Label.modify_stop (modify_stop_message pb arg)
        ≡ decoded
            (Command.modify_stop (record arg { client_order_id = client_id; symbol = symbol }))
  decode_label-modify_stop symbol client_id arg = elim (Option-cases arg.new_limit_price) [
    | inl e ↦ rw e (simp (get_set, has_set, has_new) refl)
    | inr (v, e) ↦ rw e (simp (get_set, has_set) refl)
  ]

  decode_body-serialize :
      (symbol : ℕ) (client_id : String) (l : Label) (m : Message)
      → size (serialize (with_message l m)) ≤ int_max
      → decode_body pb symbol client_id (serialize (with_message l m))
        ≡ decode_label pb symbol client_id l m
  unfolding decode_body
  decode_body-serialize symbol client_id l m small =
      let fits : ltb int_max (size (serialize (with_message l m))) ≡ false = ground arith in
      simp (fits, parse_serialize, body_case_with, sub_message_with) refl

  decode_body-encoded :
      (symbol : ℕ) (client_id : String) (l : Label) (m : Message) (p : Payload) (r : DecodeResult)
      → some (serialize (with_message l m)) ≡ some p
      → size p ≤ int_max
      → decode_label pb symbol client_id l m ≡ r
      → decode_body pb symbol client_id p ≡ r
  decode_body-encoded symbol client_id l m p r e small next =
      let same : serialize (with_message l m) ≡ p = cc in
      let fits : size (serialize (with_message l m)) ≤ int_max = rw same small in
      rw (sym same) (decode_body-serialize symbol client_id l m fits ∙ next)

  -- A payload that was encoded decodes to the command that it was encoded from, with the symbol and
  -- the client's id that come beside it, and with nothing filled: `filled` is not encoded.
  pub decode_body-encode_body :
      (symbol : ℕ) (client_id : String) (c : Command) (p : Payload)
      → encode_body pb c ≡ some p
      → size p ≤ int_max
      → decode_body pb symbol client_id p ≡ decoded (received symbol client_id c)
  unfolding encode_body
  decode_body-encode_body symbol client_id (Command.new_order arg) p e small =
      decode_body-encoded symbol client_id Label.new_order _ p _ e small
        (decode_label-order symbol client_id arg.order)
  decode_body-encode_body symbol client_id (Command.cancel_order arg) p e small =
      decode_body-encoded symbol client_id Label.cancel_order _ p _ e small (simp get_set refl)
  decode_body-encode_body symbol client_id (Command.modify_order arg) p e small =
      decode_body-encoded symbol client_id Label.modify_order _ p _ e small (simp get_set refl)
  decode_body-encode_body symbol client_id (Command.place_stop arg) p e small =
      decode_body-encoded symbol client_id Label.place_stop _ p _ e small
        (decode_label-stop symbol client_id arg.stop)
  decode_body-encode_body symbol client_id (Command.cancel_stop arg) p e small =
      decode_body-encoded symbol client_id Label.cancel_stop _ p _ e small (simp get_set refl)
  decode_body-encode_body symbol client_id (Command.modify_stop arg) p e small =
      decode_body-encoded symbol client_id Label.modify_stop _ p _ e small
        (decode_label-modify_stop symbol client_id arg)
  decode_body-encode_body symbol client_id Command.shutdown p e small = absurd (ground arith)
  decode_body-encode_body symbol client_id (Command.take_snapshot arg) p e small =
      absurd (ground arith)

  -- What a decoded payload is: an error with its message and no command, or a command and no error.
  -- A command has the symbol and the client's id that came beside the payload, has nothing filled,
  -- and is one that can be encoded, so that it is no shutdown and no snapshot request.
  abbrev pub Decodes : ℕ → String → DecodeResult → Type 0
  Decodes symbol client_id r =
      ((r.command ≡ none) × (is_empty_id r.error ≡ false))
      ⊎ ((c : Command) × (r ≡ decoded c)
          × (received symbol client_id c ≡ c)
          × is_some (encode_body pb c) ≡ true)

  decode_order-Decodes :
      (symbol : ℕ) (client_id : String) (p : Message) (side : Option Side)
      → Decodes symbol client_id (decode_order pb symbol client_id p side)
  unfolding encode_body
  decode_order-Decodes symbol client_id p none = inl (refl, refl)
  decode_order-Decodes symbol client_id p (some side) =
      elim (Option-cases (from_pb_order_type pb (get Field.type p))) [
        | inl e ↦ rw e (inl (refl, refl))
        | inr (t, e) ↦ rw e (inr (_, refl, refl, refl))
      ]

  decode_stop-Decodes :
      (symbol : ℕ) (client_id : String) (p : Message) (side : Option Side)
      → Decodes symbol client_id (decode_stop pb symbol client_id p side)
  unfolding encode_body
  decode_stop-Decodes symbol client_id p none = inl (refl, refl)
  decode_stop-Decodes symbol client_id p (some side) = inr (_, refl, refl, refl)

  decode_label-Decodes :
      (symbol : ℕ) (client_id : String) (l : Label) (p : Message)
      → Decodes symbol client_id (decode_label pb symbol client_id l p)
  unfolding encode_body
  decode_label-Decodes symbol client_id Label.new_order p =
      decode_order-Decodes symbol client_id p _
  decode_label-Decodes symbol client_id Label.cancel_order p = inr (_, refl, refl, refl)
  decode_label-Decodes symbol client_id Label.modify_order p = inr (_, refl, refl, refl)
  decode_label-Decodes symbol client_id Label.place_stop p =
      decode_stop-Decodes symbol client_id p _
  decode_label-Decodes symbol client_id Label.cancel_stop p = inr (_, refl, refl, refl)
  decode_label-Decodes symbol client_id Label.modify_stop p = inr (_, refl, refl, refl)

  decode_case-Decodes :
      (symbol : ℕ) (client_id : String) (b : Body) (l : BodyCase)
      → Decodes symbol client_id (decode_case pb symbol client_id b l)
  decode_case-Decodes symbol client_id b (BodyCase.label l) =
      decode_label-Decodes symbol client_id l _
  decode_case-Decodes symbol client_id b BodyCase.not_set = inl (refl, refl)
  decode_case-Decodes symbol client_id b BodyCase.unlisted = inl (refl, refl)

  -- Every payload decodes to an error with a message, or to a command for the symbol and with the
  -- client's id that came beside it: one with nothing filled, that can be encoded, and so never a
  -- shutdown or a request of a snapshot.
  pub decode_body-Decodes :
      (symbol : ℕ) (client_id : String) (p : Payload)
      → Decodes symbol client_id (decode_body pb symbol client_id p)
  unfolding decode_body
  decode_body-Decodes symbol client_id p = elim (Bool-cases (ltb int_max (size p))) [
    | inl big ↦ rw big (inl (refl, refl))
    | inr fits ↦ rw fits (elim (Option-cases (parse p)) [
      | inl e ↦ rw e (inl (refl, refl))
      | inr (b, e) ↦ rw e (decode_case-Decodes symbol client_id b _)
    ])
  ]
