-- ===== src/Server/Worker.antt =====
-- class Worker (server/include/server/worker.hpp, server/src/worker.cpp): one thread that serves the
-- commands of its symbols in the order of its inbox. What a step pushes to the outbox, which the
-- workers share, is its result; `none` stands for an exception.
pub mod Replies
pub mod Streams
use Prim.Native.String.{String}
use order_book_engine.Prelude.{
  ℕ, ℤ, pos, max_ℤ, Bool, true, false, ◌&&◌, ◌||◌, not, Option, none, some, List, [], ◌∷◌, ◌++◌,
  map, if◌then◌else◌, Assoc, lookup, insert, contains, ◌==◌,
}
use order_book_engine.Types.{EngineEvent, EventKind, RejectReason, OrderResult}
use order_book_engine.Book.State.{Book, drain_events}
use order_book_engine.Book.Cascade.{add_order}
use order_book_engine.Book.Commands
use order_book_engine.Book.StopCommands.{place_stop_order, cancel_stop_order, modify_stop_order}
use order_book_engine.Book.Queries.{snapshot}
use order_book_engine.Server.Commands.{
  NewOrder, CancelOrder, ModifyOrder, PlaceStop, CancelStop, ModifyStop, TakeSnapshot, Command,
  Stamped, MarketEvent, Reply, SnapshotReady, Output,
}

pub record Worker : Type 0 where
  pub inbox : List Stamped
  pub books : Assoc Book
  pub last_ts : ℤ
  pub started : Bool
  pub stopped : Bool

abbrev pub new_worker : Worker
new_worker = record { inbox = []; books = []; last_ts = pos 0; started = false; stopped = false }

-- `inbox_.push(item)`
unfoldable pub submit : Stamped → Worker → Worker
submit item w = record w { inbox = w.inbox ++ item ∷ [] }

abbrev pub shutdown_item : Stamped
shutdown_item = record {
  seq = 0;
  ts = pos 0;
  command = Command.shutdown;
  gateway_id = String.[];
  account_id = 0;
}

unfoldable pub stop : Worker → Worker
unfolding submit
stop w =
    if not w.started || w.stopped then w else submit shutdown_item (record w { stopped = true })

-- The second argument is a book that is not null.
unfoldable pub add_book : ℕ → Book → Worker → Option Worker
add_book symbol b w =
    if w.started
    then none
    else if contains symbol w.books
    then none
    else some (record w { books = insert symbol b w.books })

unfoldable pub start : Worker → Option Worker
start w = if w.started then none else some (record w { started = true })

unfoldable pub owns : ℕ → Worker → Bool
owns symbol w = contains symbol w.books

abbrev pub carries_id : EventKind → Bool
carries_id EventKind.accepted = true
carries_id EventKind.stop_accepted = true
carries_id EventKind.rejected = true
carries_id EventKind.expired = true
carries_id _ = false

abbrev pub is_empty_id : String → Bool
is_empty_id String.[] = true
is_empty_id (String.◌∷◌ c s) = false

-- The event with the client's own id, where it is about the client's new order.
abbrev pub tag_event : ℕ → ℕ → String → EngineEvent → Output
tag_event symbol own_id client_order_id e = Output.market_event (record {
  symbol = symbol;
  event = e;
  client_order_id =
      if carries_id e.kind && not (is_empty_id client_order_id) && e.order_id == own_id
      then client_order_id
      else String.[];
})

unfoldable pub publish : ℕ → ℕ → String → List EngineEvent → List Output
publish symbol own_id client_order_id events = map (tag_event symbol own_id client_order_id) events

abbrev pub make_reply : Stamped → String → ℕ → ℕ → RejectReason → ℤ → Option ℤ → Output
make_reply item client_order_id symbol order_id reason unaccepted rested_price =
    Output.reply (record {
      client_order_id = client_order_id;
      symbol = symbol;
      reject_reason = reason;
      unaccepted_quantity = unaccepted;
      rested_price = rested_price;
      gateway_id = item.gateway_id;
      account_id = item.account_id;
      order_id = order_id;
    })

-- `publish(symbol, book, own_id, own_client_id)` after a call that left the book `b`, and the reply.
unfoldable pub answer : ℕ → ℕ → String → Book → Output → Worker → Worker × List Output
unfolding publish
answer symbol own_id own_client_id b replied w =
    let (events, drained) = drain_events b in
    (
      record w { books = insert symbol drained w.books },
      publish symbol own_id own_client_id events ++ replied ∷ [],
    )

abbrev pub serve_new : NewOrder → Stamped → ℤ → Worker → Book → Worker × List Output
serve_new arg item now w b =
    let (c, r) = add_order (record (arg.order) { id = item.seq }) now b in
    answer arg.symbol item.seq arg.client_order_id c
      (make_reply item arg.client_order_id arg.symbol item.seq r.reject_reason r.unaccepted_quantity
        r.rested_price)
      w

abbrev pub serve_cancel : CancelOrder → Stamped → ℤ → Worker → Book → Worker × List Output
serve_cancel arg item now w b =
    let (c, why) = Commands.cancel_order arg.order_id arg.requester now b in
    answer arg.symbol 0 String.[] c
      (make_reply item arg.client_order_id arg.symbol arg.order_id why (pos 0) none) w

abbrev pub serve_modify : ModifyOrder → Stamped → ℤ → Worker → Book → Worker × List Output
serve_modify arg item now w b =
    let (c, r) =
      Commands.modify_order arg.order_id arg.requester arg.new_price arg.new_quantity now b in
    answer arg.symbol 0 String.[] c
      (make_reply item arg.client_order_id arg.symbol arg.order_id r.reject_reason
        r.unaccepted_quantity r.rested_price)
      w

abbrev pub serve_place_stop : PlaceStop → Stamped → ℤ → Worker → Book → Worker × List Output
serve_place_stop arg item now w b =
    let (c, why) = place_stop_order (record (arg.stop) { id = item.seq }) now b in
    answer arg.symbol item.seq arg.client_order_id c
      (make_reply item arg.client_order_id arg.symbol item.seq why (pos 0) none) w

-- The reply to a stop command, where the book served it.
abbrev pub answer_stop :
    ℕ → String → ℕ → Stamped → Worker → Option (Book × RejectReason) → Option (Worker × List Output)
answer_stop symbol client_order_id order_id item w none = none
answer_stop symbol client_order_id order_id item w (some (c, why)) = some (
    answer symbol 0 String.[] c (make_reply item client_order_id symbol order_id why (pos 0) none)
      w)

abbrev pub serve_cancel_stop :
    CancelStop → Stamped → ℤ → Worker → Book → Option (Worker × List Output)
serve_cancel_stop arg item now w b =
    answer_stop arg.symbol arg.client_order_id arg.order_id item w
      (cancel_stop_order arg.order_id arg.requester now b)

abbrev pub serve_modify_stop :
    ModifyStop → Stamped → ℤ → Worker → Book → Option (Worker × List Output)
serve_modify_stop arg item now w b =
    answer_stop arg.symbol arg.client_order_id arg.order_id item w (
      modify_stop_order arg.order_id arg.requester arg.new_stop_price arg.new_limit_price
        arg.new_quantity now b)

-- `book_for(symbol)`, and what is done with the book.
abbrev pub with_book :
    Option Book → (Book → Option (Worker × List Output)) → Option (Worker × List Output)
with_book none f = none
with_book (some b) f = f b

-- The commands that std::visit serves, once `last_ts_` has been set.
unfoldable pub visit_command : Command → Stamped → ℤ → Worker → Option (Worker × List Output)
unfolding answer
visit_command (Command.new_order arg) item now w =
    with_book (lookup arg.symbol w.books) (λ b. some (serve_new arg item now w b))
visit_command (Command.cancel_order arg) item now w =
    with_book (lookup arg.symbol w.books) (λ b. some (serve_cancel arg item now w b))
visit_command (Command.modify_order arg) item now w =
    with_book (lookup arg.symbol w.books) (λ b. some (serve_modify arg item now w b))
visit_command (Command.place_stop arg) item now w =
    with_book (lookup arg.symbol w.books) (λ b. some (serve_place_stop arg item now w b))
visit_command (Command.cancel_stop arg) item now w =
    with_book (lookup arg.symbol w.books) (serve_cancel_stop arg item now w)
visit_command (Command.modify_stop arg) item now w =
    with_book (lookup arg.symbol w.books) (serve_modify_stop arg item now w)
visit_command Command.shutdown item now w = some (w, [])
visit_command (Command.take_snapshot arg) item now w = some (w, [])

abbrev pub snapshot_output : TakeSnapshot → Book → Output
snapshot_output arg b =
    Output.snapshot_ready
      (record { symbol = arg.symbol; subscriber = arg.subscriber; snapshot = snapshot b })

-- One item that is no shutdown.
abbrev pub serve_command : Command → Stamped → Worker → Option (Worker × List Output)
serve_command (Command.take_snapshot arg) item w =
    with_book (lookup arg.symbol w.books) (λ b. some (w, snapshot_output arg b ∷ []))
serve_command command item w =
    let now = max_ℤ item.ts w.last_ts in visit_command command item now (record w { last_ts = now })

unfoldable pub serve : Stamped → Worker → Option (Worker × List Output)
unfolding visit_command
serve item w = serve_command item.command item w

abbrev pub is_shutdown : Command → Bool
is_shutdown Command.shutdown = true
is_shutdown _ = false

abbrev pub after_outputs :
    List Output → Option (Worker × List Output) → Option (Worker × List Output)
after_outputs outs none = none
after_outputs outs (some (w, more)) = some (w, outs ++ more)

abbrev pub then_serve :
    Option (Worker × List Output)
    → (Worker → Option (Worker × List Output))
    → Option (Worker × List Output)
then_serve none f = none
then_serve (some (w, outs)) f = after_outputs outs (f w)

-- The thread's loop over the items that it pops, until a shutdown or as far as they go.
unfoldable pub serve_all : List Stamped → Worker → Option (Worker × List Output)
serve_all [] w = some (w, [])
serve_all (item ∷ items) w =
    if is_shutdown item.command then some (w, []) else then_serve (serve item w) (serve_all items)
