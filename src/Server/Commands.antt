-- ===== src/Server/Commands.antt =====
-- The commands and outputs of the server (server/include/server/commands.hpp).
use Prim.Native.String.{String}
use order_book_engine.Prelude.{ℕ, ℤ, Option}
use order_book_engine.Types.{Order, StopOrder, EngineEvent, RejectReason}
use order_book_engine.Book.Queries.{BookSnapshot}

pub record NewOrder : Type 0 where
  pub client_order_id : String
  pub symbol : ℕ
  pub order : Order

pub record CancelOrder : Type 0 where
  pub client_order_id : String
  pub symbol : ℕ
  pub requester : ℕ
  pub order_id : ℕ

pub record ModifyOrder : Type 0 where
  pub client_order_id : String
  pub symbol : ℕ
  pub requester : ℕ
  pub order_id : ℕ
  pub new_price : ℤ
  pub new_quantity : ℤ

pub record PlaceStop : Type 0 where
  pub client_order_id : String
  pub symbol : ℕ
  pub stop : StopOrder

pub record CancelStop : Type 0 where
  pub client_order_id : String
  pub symbol : ℕ
  pub requester : ℕ
  pub order_id : ℕ

pub record ModifyStop : Type 0 where
  pub client_order_id : String
  pub symbol : ℕ
  pub requester : ℕ
  pub order_id : ℕ
  pub new_stop_price : ℤ
  pub new_limit_price : Option ℤ
  pub new_quantity : ℤ

pub record TakeSnapshot : Type 0 where
  pub symbol : ℕ
  pub subscriber : ℕ

pub data Command : Type 0 where
  new_order : NewOrder → Command
  cancel_order : CancelOrder → Command
  modify_order : ModifyOrder → Command
  place_stop : PlaceStop → Command
  cancel_stop : CancelStop → Command
  modify_stop : ModifyStop → Command
  shutdown : Command
  take_snapshot : TakeSnapshot → Command

pub record Stamped : Type 0 where
  pub seq : ℕ
  pub ts : ℤ
  pub command : Command
  pub gateway_id : String
  pub account_id : ℕ

pub record MarketEvent : Type 0 where
  pub symbol : ℕ
  pub event : EngineEvent
  pub client_order_id : String

pub record Reply : Type 0 where
  pub client_order_id : String
  pub symbol : ℕ
  pub reject_reason : RejectReason
  pub unaccepted_quantity : ℤ
  pub rested_price : Option ℤ
  pub gateway_id : String
  pub account_id : ℕ
  pub order_id : ℕ

pub record SnapshotReady : Type 0 where
  pub symbol : ℕ
  pub subscriber : ℕ
  pub snapshot : BookSnapshot

pub data Output : Type 0 where
  market_event : MarketEvent → Output
  reply : Reply → Output
  snapshot_ready : SnapshotReady → Output
  outbox_closed : Output
