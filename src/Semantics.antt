-- ===== src/Semantics.antt =====
-- internal/audit/decoding.go, conflicts.go, results.go and argv.go: what the fields of a record mean.
pub mod Decoding
pub mod Conflicts
pub mod Results
pub mod Argv
pub mod Unanimity
pub mod Verdict
pub mod Recognised
pub mod Aliases
pub mod Contradictions
pub mod Noted
pub mod Recorded
pub mod Arguments
