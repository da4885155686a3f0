-- ===== src/Executor.antt =====
-- The single-threaded executor of rustdv/rustdv-sim/src/executor.rs: tasks, wakes, cancellation, and
-- the loop that polls until nothing is left to poll.
pub mod State
pub mod Poll
pub mod Invariant
pub mod Polling
pub mod Wakes
pub mod Cancel
pub mod Idle
mod Tests
