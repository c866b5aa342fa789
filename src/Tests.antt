-- ===== src/Tests.antt =====
-- Runs of the model on small inputs, and each theorem at a concrete input.
mod Data
mod Scenarios
mod Witnesses
mod Wire
mod Intake
mod Threads
mod Publishing
mod Whole
mod Resuming
mod Serving
