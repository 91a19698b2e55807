-- ===== src/Update.antt =====
-- internal/update: the comparison of release versions.
pub mod Semver
pub mod Order
pub mod Tests
