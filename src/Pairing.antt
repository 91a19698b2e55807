-- ===== src/Pairing.antt =====
-- internal/pairing: the pairing of the receiver with the cloud.
pub mod Types
pub mod Lifecycle
pub mod Attempts
pub mod Process
pub mod Coherence
pub mod Steps
pub mod Invariant
pub mod Calls
pub mod Diagram
pub mod Completion
pub mod Tests
