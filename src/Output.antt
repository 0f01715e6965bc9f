-- ===== src/Output.antt =====
-- internal/output: the sink for canonical events.
pub mod Sink
pub mod Reopening
pub mod Delivery
pub mod Landing
pub mod Durable
