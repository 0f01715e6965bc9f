-- ===== src/Parser.antt =====
-- internal/audit/parser.go: one audit line as ordered fields, and the record that they make.
pub mod Text
pub mod Fields
pub mod Values
pub mod Envelope
pub mod Payload
pub mod Progress
pub mod Consistency
pub mod Printing
pub mod RoundTrip
pub mod Agreement
