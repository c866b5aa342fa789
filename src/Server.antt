-- ===== src/Server.antt =====
-- The server around the order book (server/): its commands and its workers.
pub mod Commands
pub mod Worker
pub mod Router
pub mod Protobuf
pub mod Codec
pub mod SequencerFeed
pub mod BlockingQueue
pub mod Subscription
pub mod Publisher
pub mod Feeds
pub mod EngineFeedServer
