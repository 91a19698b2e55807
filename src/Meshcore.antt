-- ===== src/Meshcore.antt =====
-- internal/meshcore: the frames of the serial line to a MeshCore companion.
pub mod Framing
pub mod Frames
pub mod Writes
pub mod Tests
