-- ===== src/Tests.antt =====
-- Concrete inputs: runs of the model, and each theorem applied to data that meets its hypotheses.
pub mod Samples
pub mod Assembly
pub mod Parsing
pub mod Meaning
pub mod Collecting
pub mod Writing
pub mod Following
pub mod Rotating
pub mod Commanding
