-- ===== src/Book.antt =====
-- class Book of engine/include/engine/book.hpp, part by part.
pub mod State
pub mod Bands
pub mod Matching
pub mod Resting
pub mod Filling
pub mod Settling
pub mod Adding
pub mod Stops
pub mod Cascade
pub mod Commands
pub mod StopCommands
pub mod Queries
pub mod Calls
