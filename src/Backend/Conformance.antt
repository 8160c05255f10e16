-- ===== src/Backend/Conformance.antt =====
-- `InMemoryBackend` of src/backend.rs against the contract of the trait: what its state looks like
-- from outside, and its invariant. The children prove that every call answers as the reference.
pub mod KeySets
pub mod Prefixes
pub mod Projection
pub mod Reads
pub mod Refinement
pub mod Simulation
pub mod Implementation
pub mod Walks
pub mod Writes
use nexir_mvcc_core.Prelude.{ℕ, String, Bool, true, Option, List, [], ◌∷◌, ◌≤◌, All, if◌then◌else◌}
use nexir_mvcc_core.Ord.{bytes_ord, nat_ord, pair_ord, bytes_eq}
use nexir_mvcc_core.BTreeMap
use nexir_mvcc_core.BTreeMap.{BTreeMap, IsSorted}
use nexir_mvcc_core.Types.{Key, Value, Timestamp, TxnId, Intent, CommittedVersion, max_ts}
use nexir_mvcc_core.Exec.{Result, Exec, map_ok}
use nexir_mvcc_core.Backend.{Backend, IntentName}
use nexir_mvcc_core.Backend.InMemory.{InMemoryBackend, VersionKey}
use nexir_mvcc_core.Backend.Reference.{View, History}

-- the versions of one key
unfoldable pub history : Key → BTreeMap VersionKey (Option Value) → History
history k [] = []
history k (((j, t), v) ∷ m) = let rest = history k m in if bytes_eq j k then (t, v) ∷ rest else rest

-- what the trait shows of the state
abbrev pub view : InMemoryBackend → View
view s = record {
  intent_of = λ k. BTreeMap.get k s.intents;
  history_of = λ k. history k s.committed;
  keys = s.all_keys_set;
}

-- `Timestamp` is a `u64` or `u128`: no version is past the largest
abbrev pub InRange : BTreeMap VersionKey (Option Value) → Type 0
InRange m = All (λ e. e.0.1 ≤ max_ts) m

pub record IsValid (s : InMemoryBackend) : Type 0 where
  pub sorted : IsSorted s.committed
  pub in_range : InRange s.committed

-- the `&self` methods with their arguments
pub data Query : Type 0 where
  ask_committed_versions : Key → Query
  ask_latest_committed : Key → Query
  ask_visible_committed : Key → Timestamp → Query
  ask_latest_commit_ts : Key → Query
  ask_intent : Key → Query
  ask_all_keys : Query
  ask_keys_from : Option Key → ℕ → Query
  ask_timestamps_before : Key → Timestamp → ℕ → Query

abbrev pub Answer : Query → Type 0
Answer (ask_committed_versions key) = List CommittedVersion
Answer (ask_latest_committed key) = Option CommittedVersion
Answer (ask_visible_committed key ts) = Option CommittedVersion
Answer (ask_latest_commit_ts key) = Option Timestamp
Answer (ask_intent key) = Option Intent
Answer ask_all_keys = List Key
Answer (ask_keys_from start limit) = List Key
Answer (ask_timestamps_before key ts limit) = List Timestamp

abbrev pub ask : {S : Type 0} → Backend S → (q : Query) → S → Result String (Answer q)
ask b (ask_committed_versions key) s = b.get_committed_versions key s
ask b (ask_latest_committed key) s = b.get_latest_committed key s
ask b (ask_visible_committed key ts) s = b.get_visible_committed key ts s
ask b (ask_latest_commit_ts key) s = b.get_latest_commit_ts key s
ask b (ask_intent key) s = b.get_intent key s
ask b ask_all_keys s = b.all_keys s
ask b (ask_keys_from start limit) s = b.keys_from start limit s
ask b (ask_timestamps_before key ts limit) s = b.get_committed_timestamps_before key ts limit s

-- the `&mut self` methods with their arguments
pub data Write : Type 0 where
  put_intent : Intent → Write
  remove_intent : Key → TxnId → Timestamp → Write
  put_committed : CommittedVersion → Write
  put_committed_batch : List CommittedVersion → Write
  remove_committed_version : Key → Timestamp → Write
  put_intents_batch : List Intent → Write
  commit_intents_batch : List CommittedVersion → List IntentName → Write
  remove_intents_batch : List IntentName → Write
  collapse_tombstone : Key → Timestamp → List Timestamp → Write

-- a method without a result answers `true`
abbrev pub silent : {S : Type 0} → Result String (Unit {0}) × S → Result String Bool × S
silent (answer, s) = (map_ok (λ _. true) answer, s)

abbrev pub perform : {S : Type 0} → Backend S → Write → Exec S String Bool
perform b (put_intent i) s = silent (b.put_intent i s)
perform b (remove_intent key txn_id ts) s = b.remove_intent key txn_id ts s
perform b (put_committed v) s = silent (b.put_committed v s)
perform b (put_committed_batch vs) s = silent (b.put_committed_batch vs s)
perform b (remove_committed_version key ts) s = silent (b.remove_committed_version key ts s)
perform b (put_intents_batch is) s = silent (b.put_intents_batch is s)
perform b (commit_intents_batch vs names) s = silent (b.commit_intents_batch vs names s)
perform b (remove_intents_batch names) s = silent (b.remove_intents_batch names s)
perform b (collapse_tombstone key ts older) s = silent (b.collapse_tombstone key ts older s)

-- the versions a call writes have timestamps of the type `Timestamp`
abbrev pub Representable : Write → Type 0
Representable (put_committed v) = v.commit_ts ≤ max_ts
Representable (put_committed_batch vs) = All (λ v. v.commit_ts ≤ max_ts) vs
Representable (commit_intents_batch vs names) = All (λ v. v.commit_ts ≤ max_ts) vs
Representable _ = Unit

-- the calls in order, what they answer, and the state after them
unfoldable pub perform_all :
    {S : Type 0} → Backend S → List Write → S → List (Result String Bool) × S
perform_all b [] s = ([], s)
perform_all b (w ∷ ws) s =
    let (answer, after) = perform b w s in
    let (answers, last) = perform_all b ws after in (answer ∷ answers, last)
