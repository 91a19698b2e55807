-- ===== src/Runtime.antt =====
-- internal/runtime: the parts of the service that compose the components.
pub mod Rotation
pub mod Completed
pub mod Rotated
pub mod Coherence
pub mod Repairing
pub mod Tests
