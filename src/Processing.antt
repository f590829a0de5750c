-- ===== src/Processing.antt =====
-- internal/processing: how the service retries a step (policy.go), and the audit table of the
-- steps (steps.go).
pub mod Vocab
pub mod Policy
pub mod Errors
pub mod Table
pub mod Steps
