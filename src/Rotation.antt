-- ===== src/Rotation.antt =====
-- internal/collector/rotation.go: retained generations of the source and the switch between them.
pub mod Candidates
pub mod Ages
pub mod Order
pub mod Chain
pub mod State
pub mod Queue
pub mod Next
pub mod Opening
pub mod Position
pub mod Invariant
pub mod Entering
pub mod Aligned
pub mod Refreshed
pub mod Panic
pub mod Suffix
