-- ===== src/Effects.antt =====
-- packages/agent/src/harness: the admission of effects, and the waits between retries.
pub mod Gate
pub mod Retry
