-- ===== src/Assembler.antt =====
-- internal/audit/assembler.go and isolation.go: grouping interleaved records into events.
pub mod State
pub mod Time
pub mod Clock
pub mod Expiry
pub mod Types
pub mod Add
pub mod Isolation
pub mod Accounts
pub mod Delivery
pub mod Admission
pub mod Conservation
pub mod Exceptions
pub mod Recovery
pub mod Shrinking
pub mod Bounds
pub mod RecoveryBounds
pub mod Replay
pub mod Reject
pub mod LineLimit
pub mod Order
pub mod Runs
pub mod Operations
pub mod Tracking
pub mod Untouched
pub mod RejectedKeys
pub mod LineLimitBounds
pub mod LineLimitSizes
