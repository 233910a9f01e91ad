-- ===== src/Providers.antt =====
-- src/recallpack/providers.py: what the library makes of the answers of its providers. The traces and the errors
-- stand in Observe.
pub mod Arguments
pub mod Decision
pub mod Settled
pub mod Indexes
mod Tests
