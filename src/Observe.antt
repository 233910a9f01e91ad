-- ===== src/Observe.antt =====
-- src/recallpack/observe.py: `ObserveRuntime`, over the store, the turnstile and the providers.
pub mod Trace
pub mod Evidence
pub mod Candidates
pub mod Selected
pub mod Flow
pub mod Response
pub mod Attempt
pub mod Runtime
pub mod Endings
pub mod Kept
pub mod Written
pub mod Answered
mod Tests
