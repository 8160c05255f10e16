-- ===== src/Lib.antt =====
-- A model of the MVCC core: multi-version histories with intents, over a storage backend.
--
-- The program. `MvccEngine` (src/engine.rs) executes reads, intent transactions (prewrite, commit,
-- abort, singly and in batches), direct and guarded batches and garbage collection over a storage
-- `Backend` (src/backend.rs), which keeps the committed versions and the intents. `InMemoryBackend`
-- is the backend of the repository.
--
-- The files.
--   Prelude, Ord, BTreeMap: library names, tests, lists, the orders of keys and the sorted maps.
--   Types, Error: src/types.rs and src/error.rs.
--   Exec: Rust's `Result` and methods on `&mut self`, in `do` blocks; Exec/Keeps, Exec/Returns and
--     Exec/Yields: the rules for what they leave alone and for what they return.
--   Backend: the trait; Backend/Default: its default methods; Backend/InMemory: `InMemoryBackend`;
--     Backend/Conformance: `InMemoryBackend` against the reference, with one key's history inside
--     the map (Projection), the reads (Reads), the writes (Writes), whole sequences (Refinement), the
--     prefix scan (KeySets, Walks, Prefixes) and all methods together (Simulation, Implementation);
--     Backend/Reference: the trait's contract as a backend that keeps a history and an intent for
--     each key, with lemmas on histories (Histories), writes (Effects) and its invariant (WellFormed, Removals).
--   Engine: Read (`read`, `read_with_version`, `read_own_write`), Intents (`prewrite`, `commit`,
--     `abort`), IntentBatches (`prewrite_batch`, `commit_batch`, `abort_batch`), WriteBatches
--     (`apply_direct_batch`, `apply_guarded_batch`), KeyGc (`plan_key_gc`), IncrementalGc
--     (`gc_incremental`), FullGc (`gc`), Batch (what the batch methods share).
--   Engine/Readings: which checks only read. Engine/Accepted: what holds where a method returned
--     `Ok`. Engine/Effects: the states that batches leave, key by key.
--   Engine/Calls: the eight methods as one type of calls, and the theorems about them.
--   Engine/Requests: all methods as one type of requests with their answers, and sessions; Collections
--     and Snapshots: what a session over the reference keeps and changes.
--   Backend/Simulation, Exec/Matches: when one backend stands for another, and the rules for actions
--     that keep in step. Engine/Simulation: the engine over two such backends (Checks, Transactions,
--     Batches, Gc, Reads), whole sessions (Sessions), and what follows for `InMemoryBackend`
--     (Transfer, Commits).
--   Engine/KeyGc: what a plan of `plan_key_gc` may remove (SafePoint) and collapse (Collapses,
--     Tombstones).
--   Engine/IncrementalGc: what collection does to the state, as a step relation (Steps); how many
--     versions it takes (Counting) and what is left (Cleaning, Trims); one round of the loop (Rounds,
--     Equations, Branches), the loop (Scans, Totals), the cursor (Cursor), one call (Passes), repeated calls (Progress,
--     Termination), what callers rely on (Guarantees), and budgets of `usize::MAX` (Wrap).
--   ConformanceTests: src/conformance.rs, whose macros make tests for a backend: the tests (Committed,
--     Versions, Intents, Scans), all of them as one type (Suite), their runs over the reference
--     (Passing), and over every backend that implements the trait (Lines, Implementations).
--   Codec: src/codec.rs, its integers and byte strings, with the records (Records), big-endian bytes
--     (Bytes), what the encoders write (Layout) and what the decoders read (Parsing, RoundTrips).
--   Examples: runs on small inputs, and the theorems at concrete inputs.
--
-- The correspondence. A method of the engine is a definition over a backend `b : Backend S`; the
-- engine's only field is the backend, so its state is the backend's state `S`. A method returns its
-- result and the state after it, on errors too. The checks and early returns stand in the source's
-- order. Numbers: `Timestamp` (u128) and `TxnId` (u64) are natural numbers, since the engine only
-- compares them; the codec's theorems state their ranges. Bytes and `usize` counters are natural
-- numbers as well: the counters count list entries. The two additions to a caller's budget in
-- `gc_incremental` are `add_usize`, which wraps at 64 bits.
-- `BTreeMap`, `BTreeSet` and `HashMap` are lists of entries in the order of their keys. `gc` runs on
-- fuel, a bound on its calls of `gc_incremental`: a state with n keys and m versions needs n + m + 1,
-- since each call that is not the last removes a version or moves the cursor past a key.
--
-- Not modelled: the display texts of errors, the tests, benches and examples, and the crate root,
-- which only declares modules and re-exports names.
mod Prelude
pub mod Ord
pub mod BTreeMap
pub mod Codec
pub mod Types
pub mod Error
pub mod Exec
pub mod Backend
pub mod Engine
pub mod ConformanceTests
mod Examples
