-- ===== src/Collector.antt =====
-- internal/collector and cmd/ag-audit/gap_recovery.go: checkpoints and the ledger of source gaps.
pub mod Checkpoint
pub mod Ledger
pub mod Recovery
pub mod Window
pub mod Validity
pub mod Crash
pub mod Evidence
