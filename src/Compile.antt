-- ===== src/Compile.antt =====
-- src/recallpack/compile.py: which memories of a project reach the pack of a goal, and in what order.
-- The trace of a compilation is modelled as far as it says which memories were left out.
mod Rank
mod Retrieve
mod Serve
pub mod Retrieved
pub mod Ordered
pub mod Packed
pub mod Stale
pub mod Samples
mod Tests
unfoldable pub use Rank.*
unfoldable pub use Retrieve.*
unfoldable pub use Serve.*
