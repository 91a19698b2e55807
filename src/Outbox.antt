-- ===== src/Outbox.antt =====
-- internal/outbox: the durable queue of normalized deliveries.
pub mod Types
pub mod Platform
pub mod Keys
pub mod Db
pub mod Store
pub mod Attempts
pub mod Prune
pub mod Enqueue
pub mod Quarantine
pub mod Pause
pub mod Reconcile
pub mod Rotation
pub mod Journals
pub mod Open
pub mod NextDue
pub mod Engine
pub mod Transactions
pub mod Picks
pub mod Separation
pub mod Collisions
pub mod Statistics
pub mod Acceptance
pub mod Operations
pub mod Listed
pub mod Tests
pub mod Accounts
pub mod Effects
pub mod Bulk
pub mod Moves
pub mod Matching
pub mod Pruning
pub mod Index
pub mod Validity
