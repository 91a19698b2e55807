-- ===== src/State.antt =====
-- internal/state: the durable state of the receiver.
pub mod Types
pub mod Store
pub mod Migrate
pub mod Generations
pub mod Updates
mod Defaults
pub mod Opening
pub mod Tests
