-- ===== src/Backend.antt =====
-- src/backend.rs: the trait `Backend`, as a record of its methods over a state `S`. A `&self`
-- method reads the state, a `&mut self` method returns the state after the call, also on an error.
-- The children are the default methods, the in-memory backend and the reference backend.
pub mod Conformance
pub mod Default
pub mod InMemory
pub mod Reference
pub mod Simulation
use nexir_mvcc_core.Prelude.{ℕ, Bool, Option, List, String}
use nexir_mvcc_core.Types.{Timestamp, TxnId, Key, Intent, CommittedVersion}
use nexir_mvcc_core.Exec.{Result, Exec}

-- a `(Key, TxnId, Timestamp)` that names an intent to remove
abbrev pub IntentName : Type 0
IntentName = Key × TxnId × Timestamp

pub record Backend (S : Type 0) : Type 0 where
  pub get_committed_versions : Key → S → Result String (List CommittedVersion)
  pub get_latest_committed : Key → S → Result String (Option CommittedVersion)
  pub get_visible_committed : Key → Timestamp → S → Result String (Option CommittedVersion)
  pub get_latest_commit_ts : Key → S → Result String (Option Timestamp)
  pub get_intent : Key → S → Result String (Option Intent)
  pub put_intent : Intent → Exec S String (Unit {0})
  pub remove_intent : Key → TxnId → Timestamp → Exec S String Bool
  pub put_committed : CommittedVersion → Exec S String (Unit {0})
  pub put_committed_batch : List CommittedVersion → Exec S String (Unit {0})
  pub remove_committed_version : Key → Timestamp → Exec S String (Unit {0})
  pub all_keys : S → Result String (List Key)
  pub put_intents_batch : List Intent → Exec S String (Unit {0})
  pub commit_intents_batch : List CommittedVersion → List IntentName → Exec S String (Unit {0})
  pub remove_intents_batch : List IntentName → Exec S String (Unit {0})
  pub keys_from : Option Key → ℕ → S → Result String (List Key)
  pub keys_from_prefix : Key → Option Key → ℕ → S → Result String (List Key)
  pub get_committed_timestamps_before : Key → Timestamp → ℕ → S → Result String (List Timestamp)
  pub collapse_tombstone : Key → Timestamp → List Timestamp → Exec S String (Unit {0})
