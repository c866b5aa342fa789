-- ===== src/Draining.antt =====
-- The drain of triggered stops (check_and_trigger_stops, engine/src/stops.cpp).
pub mod Count
pub mod Calm
pub mod Nested
