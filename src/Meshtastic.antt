-- ===== src/Meshtastic.antt =====
-- internal/meshtastic: the native serial protocol of a Meshtastic device.
pub mod Protobuf
pub mod Scanner
pub mod Frames
pub mod Decode
pub mod Home
pub mod Status
pub mod Tests
