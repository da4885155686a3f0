-- ===== src/Gpi.antt =====
-- The safe wrapper over the simulator's programming interface (VPI): rustdv/rustdv-gpi/src/rustdv_gpi.rs.
mod Callbacks
mod Steps
mod Handles
mod Lookup
mod Requests
pub mod Signals
mod Tests
mod Words
pub mod Writes
mod Shifts
mod Reads
pub mod RoundTrip
mod Counts
mod Fires
mod Once
