-- ===== src/Normalize.antt =====
-- The validation of a decider's operation in src/recallpack/observe.py, and what it guarantees.
pub mod Parts
pub mod Validate
pub mod Supersede
pub mod Decide
pub mod Authority
pub mod Written
pub mod Raises
mod Tests
