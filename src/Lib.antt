-- ===== src/Lib.antt =====
-- A model of the matching engine of this repository and its correctness theorems.
--
-- The program is an order book for one symbol (class Book, engine/) and a server around it
-- (server/). A command calls one of the operations of Book with the time; the operation changes the
-- book, appends events to it, and returns what happened. A worker drains the events after each call.
--
-- Which file models which part:
--   Prelude          shared helpers: integers over the native numbers (Prelude/Int), hash maps
--                    (Prelude/Maps), lists (Prelude/Lists), Boolean tests (Prelude/Tests)
--   Types            the structs and enums of engine/include/engine/order.hpp, trade.hpp,
--                    result.hpp, event.hpp, node.hpp, level.hpp
--   Levels           class NodePool (engine/include/engine/pool.hpp) and the level operations of
--                    engine/src/book_levels.cpp on one side of the book
--   Book.State       the members of class Book (engine/include/engine/book.hpp), the constructor,
--                    `emit` and the accessors
--   Book.Bands       lower_limit, upper_limit, within_band
--   Book.Matching    Book::plan_match
--   Book.Resting     reduce_resting, remove_resting, unlink_and_maybe_erase_level, `place_node`
--   Book.Filling     validate_order_fields, validate_new_order, and the loop of
--                    Book::add_order_core over the planned fills (`execute_fills`)
--   Book.Settling    what add_order_core does with the remainder (`settle`)
--   Book.Adding      the whole of add_order_core, over the function it calls after its trades
--   Book.Stops       the maps of dormant stops and the waking of stops
--   Book.Cascade     check_and_trigger_stops with its drain, add_order_core, add_order
--   Book.Commands    cancel_order, modify_order
--   Book.StopCommands  place_stop_order, cancel_stop_order, modify_stop_order
--   Book.Queries     depth, snapshot, check_invariants
--   Book.Calls       sequences of calls of the public operations (`run`)
--   Server.Commands  the commands and outputs (server/include/server/commands.hpp)
--   Server.Worker    class Worker (server/src/worker.cpp)
--   Server.Router    class Router (server/src/router.cpp)
--   Server.BlockingQueue  class BlockingQueue (server/include/server/blocking_queue.hpp), as the steps
--                    of several threads
--   Server.Protobuf  the generated message classes, as a parameter
--   Server.Codec     encode_body, decode_body (server/src/codec.cpp)
--   Server.SequencerFeed  class SequencerFeed (server/src/sequencer_feed.cpp)
--   Server.Subscription, Server.Publisher, Server.Publisher.Subscribing
--                    classes Subscription and MarketDataPublisher (server/src/publisher.cpp)
--   Server.EngineFeedServer  the handlers of the gRPC service (server/src/engine_feed_server.cpp)
-- The proofs:
--   Levels.Sides, Levels.Placing, Levels.Unlinking
--                    a side of the book as a map from prices to queues
--   Tracking         a relation between books that each single step of the operations keeps is kept
--                    by the calls and by sessions; History, Draining and Conservation use it
--   History          what a session of calls only adds to: events, owners, finished ids
--   Draining         the drain of triggered stops
--   Halting          the calls of a halted book
--   Conservation     the quantity of an added order
--   Server.SequencerFeed.Taking, .Attempts, .Retrying, .GivingUp
--                    what the feed submits, and when it fails
--   Server.Publisher.Consistent  the maps of the publisher agree; Opening the outcomes of subscribe;
--                    Views what each subscriber reads; Recording the histories for replays;
--                    Joining a call of subscribe among the other steps
--   Server.Feeds     the worker, the publisher and a stream together
--   Tests            the data of the tests, scenarios, and each theorem at a concrete input
--
-- How the state corresponds: a Node* is the index of the node in the pool, and `deref` reads it. A
-- level of a std::map holds the list of its nodes, head first, in place of the links, and a map of
-- levels is the list of its levels in the order of its keys: bids from the highest price, asks from
-- the lowest. `node->level` is the price of the level. The free list of the pool is a list. An
-- unordered_map is an association list that is only read by key. Events are those that have not been
-- drained. Every operation takes the book and returns the changed book with its result; a C++
-- exception is `none`.
--
-- Numbers: ids, owners and counters are native numbers. Sequence numbers, trade ids and stop
-- priorities wrap modulo 2 ^ 64 and level counts modulo 2 ^ 32, as the source's unsigned types do.
-- Prices, quantities and times are int64_t in the source and unbounded integers here: the source does
-- not check them against overflow, which is undefined there; a run in which it happens is outside
-- the model.
--
-- Fuel: the drain of check_and_trigger_stops runs on one more than the number of stops that the book
-- holds, dormant and triggered: each round takes one stop off the queue and none is created.
-- add_order_core and check_and_trigger_stops call each other in the source; the inner call finds
-- draining_stops_ set and only wakes stops, so it is the separate function `check_while_draining`.
--
-- The server: a worker turns the commands of its inbox into outputs; the publisher routes them to the
-- subscriptions of gateways, whose streams read them; the sequencer feed fills the inbox. An inbox, an
-- outbox and a subscription are lists in these models, as their queues are first in, first out. A
-- std::shared_ptr<Subscription> is an id into a store. A gRPC stream is given as what its calls return.
-- A handler of the service is given, turn by turn, what the client, the publisher and the other
-- handlers do while it runs; so it needs no fuel.
--
-- Not modelled: the link tests of check_invariants (head, tail, prev), which have no counterpart in
-- levels that hold the list of their nodes; the display strings of engine/src/order.cpp; of the server
-- (server/) threads that submit to the router at the same time, the start and the join of threads, the
-- texts of log lines and error details, the codec of the engine's feed (feed_codec.cpp), the start and
-- stop of its gRPC server (engine_feed_server.cpp), and the processes.
pub mod Prelude
pub mod Types
pub mod Levels
pub mod Book
pub mod Tracking
pub mod History
pub mod Conservation
pub mod Draining
pub mod Halting
pub mod Server
mod Tests
