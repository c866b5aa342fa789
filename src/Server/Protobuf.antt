-- ===== src/Server/Protobuf.antt =====
-- The generated classes of exchange/v1/commands.proto, which is outside this repository, as the codec
-- (server/src/codec.cpp) uses them: a parameter, with the documented behaviour that the codec relies
-- on. `pb::CommandBody` is a message with one sub-message, named by its label.
use order_book_engine.Prelude.{ℕ, ℤ, Option, some, Bool, true, false, ◌||◌, ◌≡◌, ◌≢◌}

-- The labels of the oneof of `CommandBody`.
pub data Label : Type 0 where
  new_order cancel_order modify_order place_stop cancel_stop modify_stop : Label

-- `body_case()`: a label, BODY_NOT_SET, or a number that no label of the switch has.
pub data BodyCase : Type 0 where
  label : Label → BodyCase
  not_set : BodyCase
  unlisted : BodyCase

-- The fields that are set and read.
pub data Field : Type 0 where
  id owner_id requester order_id : Field
  side type : Field
  price quantity new_price new_quantity : Field
  stop_price limit_price new_stop_price new_limit_price : Field

-- Ids are unsigned, amounts are signed; an enum is open, so that its value is a number.
abbrev pub ValueOf : Field → Type 0
ValueOf Field.id = ℕ
ValueOf Field.owner_id = ℕ
ValueOf Field.requester = ℕ
ValueOf Field.order_id = ℕ
ValueOf _ = ℤ

-- The value of the field `f` after the field `g` was set to `v`, where `f` had the value `old`.
abbrev pub written : (f g : Field) → ValueOf g → ValueOf f → ValueOf f
written Field.id Field.id v old = v
written Field.owner_id Field.owner_id v old = v
written Field.requester Field.requester v old = v
written Field.order_id Field.order_id v old = v
written Field.side Field.side v old = v
written Field.type Field.type v old = v
written Field.price Field.price v old = v
written Field.quantity Field.quantity v old = v
written Field.new_price Field.new_price v old = v
written Field.new_quantity Field.new_quantity v old = v
written Field.stop_price Field.stop_price v old = v
written Field.limit_price Field.limit_price v old = v
written Field.new_stop_price Field.new_stop_price v old = v
written Field.new_limit_price Field.new_limit_price v old = v
written _ _ v old = old

-- Whether the field of an optional amount is the one that was set.
abbrev pub same_optional : (f g : Field) → Bool
same_optional Field.price Field.price = true
same_optional Field.limit_price Field.limit_price = true
same_optional Field.new_limit_price Field.new_limit_price = true
same_optional _ _ = false

abbrev pub is_optional : Field → Bool
is_optional Field.price = true
is_optional Field.limit_price = true
is_optional Field.new_limit_price = true
is_optional _ = false

pub record Protobuf : Type 1 where
  pub Payload : Type 0
  pub Body : Type 0
  pub Message : Type 0
  -- the bytes of a std::string, and ParseFromArray and SerializeAsString on them
  pub size : Payload → ℕ
  pub serialize : Body → Payload
  pub parse : Payload → Option Body
  pub parse_serialize : (b : Body) → parse (serialize b) ≡ some b
  -- the oneof: `mutable_…()` selects its label
  pub body_case : Body → BodyCase
  pub sub_message : Label → Body → Message
  pub with_message : Label → Message → Body
  pub body_case_with : (l : Label) (m : Message) → body_case (with_message l m) ≡ BodyCase.label l
  pub sub_message_with : (l : Label) (m : Message) → sub_message l (with_message l m) ≡ m
  -- the fields of a message; a new message has none of its optional fields
  pub new_message : Message
  pub get : (f : Field) → Message → ValueOf f
  pub set : (f : Field) → ValueOf f → Message → Message
  pub has : Field → Message → Bool
  pub get_set :
      (f g : Field) (v : ValueOf g) (m : Message) → get f (set g v m) ≡ written f g v (get f m)
  pub has_set :
      (f g : Field) (v : ValueOf g) (m : Message)
      → is_optional f ≡ true
      → has f (set g v m) ≡ (same_optional f g || has f m)
  pub has_new : (f : Field) → is_optional f ≡ true → has f new_message ≡ false
  -- the enums' constants
  pub side_buy : ℤ
  pub side_sell : ℤ
  pub order_type_limit : ℤ
  pub order_type_market : ℤ
  pub sides_differ : side_sell ≢ side_buy
  pub order_types_differ : order_type_market ≢ order_type_limit
