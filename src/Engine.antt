-- ===== src/Engine.antt =====
-- src/engine.rs: `MvccEngine<B>`, whose only field is its backend. A method of the engine is a
-- definition over a backend `b : Backend S`, and the engine's state is the backend's state.
pub mod Batch
pub mod Read
pub mod Intents
pub mod IntentBatches
pub mod WriteBatches
pub mod KeyGc
pub mod IncrementalGc
pub mod FullGc
pub mod Readings
pub mod Accepted
pub mod Effects
pub mod Simulation
pub mod Calls
pub mod Requests
