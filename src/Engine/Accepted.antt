-- ===== src/Engine/Accepted.antt =====
-- What holds of the state in which a method returned `Ok`, and the state that it left, over the
-- reference backend.
mod Duplicates
mod Intents
mod PrewriteBatches
mod CommitBatches
mod WriteBatches
pub use Duplicates.*
pub use Intents.*
pub use PrewriteBatches.*
pub use CommitBatches.*
pub use WriteBatches.*
