-- ===== src/Clock.antt =====
-- internal/clockattestation: attestations of the cloud's clock.
pub mod Types
pub mod Samples
pub mod Durations
pub mod Envelopes
pub mod Tests
