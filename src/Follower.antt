-- ===== src/Follower.antt =====
-- internal/collector/follower.go: complete lines read from one growing file.

pub mod Anchor
pub mod Lines
pub mod Split
pub mod Opening
pub mod Holding
pub mod Fragments
pub mod Transfer
pub mod Resuming
