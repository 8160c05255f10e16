-- ===== src/Engine/Simulation.antt =====
-- The engine of src/engine.rs over two backends of which one simulates the other: every method returns
-- the same, and leaves related states. The children follow the methods.
pub mod Transactions
pub mod Checks
pub mod Batches
pub mod Gc
pub mod Reads
pub mod Sessions
pub mod Transfer
pub mod Commits
