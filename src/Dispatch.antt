-- ===== src/Dispatch.antt =====
-- internal/receiverevents: the dispatch of queued deliveries to the cloud.
pub mod Classify
pub mod Delays
pub mod Once
pub mod Runs
pub mod Standing
pub mod Stops
pub mod Acks
pub mod Tests
