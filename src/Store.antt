-- ===== src/Store.antt =====
-- src/recallpack/storage.py: the event store, a component for each group of its methods.
pub mod Rows
pub mod Query
pub mod Results
pub mod Runs
pub mod Answer
pub mod Lease
pub mod Claim
pub mod Supersede
pub mod Complete
pub mod Fail
pub mod Tables
pub mod Ended
pub mod Audit
pub mod History
pub mod Consistent
pub mod Ending
pub mod Replay
pub mod Fence
pub mod Admit
pub mod Refused
pub mod Edges
pub mod Kept
pub mod Opening
pub mod Renewed
pub mod Claimed
pub mod Steps
pub mod Updates
pub mod Session
pub mod Closing
pub mod Advance
pub mod Outcomes
pub mod Entering
pub mod Opened
pub mod Sessions
pub mod Alive
pub mod Served
pub mod OperationServed
pub mod Terminal
pub mod RowChecks
pub mod RowsValid
pub mod RowsKept
pub mod Audited
pub mod Commit
pub mod Rollback
pub mod Accept
pub mod Samples
mod Tests
mod CallTests
