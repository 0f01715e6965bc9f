-- ===== src/Command.antt =====
-- cmd/ag-audit: the options of the command, and what it does with each physical line.
pub mod Options
pub mod Checks
pub mod Ready
pub mod Processor
pub mod Shown
pub mod Handling
pub mod Conserves
pub mod Session
pub mod Closed
pub mod Healthy
pub mod Checkpoints
pub mod Loop
pub mod Durable
pub mod Saves
pub mod Keeping
pub mod Turns
pub mod Covering
