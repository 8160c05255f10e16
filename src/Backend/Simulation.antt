-- ===== src/Backend/Simulation.antt =====
-- When one backend stands for another: methods called on related states answer alike and leave related
-- states. `Allowed` restricts the timestamps that are written.
use nexir_mvcc_core.Prelude.{ℕ, Option, List, All}
use nexir_mvcc_core.Types.{Timestamp, TxnId, Key, Intent, CommittedVersion}
use nexir_mvcc_core.Exec.Matches.{Matches, Answers}
use nexir_mvcc_core.Backend.{Backend, IntentName}

pub record Simulates {S T : Type 0} (R : S → T → Type 0) (Allowed : Timestamp → Type 0)
    (b : Backend S) (c : Backend T) : Type 0 where
  pub get_latest_commit_ts :
      (k : Key) → Answers R (b.get_latest_commit_ts k) (c.get_latest_commit_ts k)
  pub get_visible_committed :
      (k : Key) (ts : Timestamp)
      → Answers R (b.get_visible_committed k ts) (c.get_visible_committed k ts)
  pub get_intent : (k : Key) → Answers R (b.get_intent k) (c.get_intent k)
  pub all_keys : Answers R b.all_keys c.all_keys
  pub keys_from :
      (start : Option Key) (limit : ℕ)
      → Answers R (b.keys_from start limit) (c.keys_from start limit)
  pub get_committed_timestamps_before :
      (k : Key) (ts : Timestamp) (limit : ℕ)
      → Answers R
          (b.get_committed_timestamps_before k ts limit)
          (c.get_committed_timestamps_before k ts limit)
  pub put_intent : (i : Intent) → Matches R (b.put_intent i) (c.put_intent i)
  pub remove_intent :
      (k : Key) (t : TxnId) (ts : Timestamp)
      → Matches R (b.remove_intent k t ts) (c.remove_intent k t ts)
  pub put_committed_batch :
      (vs : List CommittedVersion)
      → All (λ v. Allowed v.commit_ts) vs
      → Matches R (b.put_committed_batch vs) (c.put_committed_batch vs)
  pub remove_committed_version :
      (k : Key) (ts : Timestamp)
      → Matches R (b.remove_committed_version k ts) (c.remove_committed_version k ts)
  pub put_intents_batch :
      (is : List Intent) → Matches R (b.put_intents_batch is) (c.put_intents_batch is)
  pub commit_intents_batch :
      (vs : List CommittedVersion) (ns : List IntentName)
      → All (λ v. Allowed v.commit_ts) vs
      → Matches R (b.commit_intents_batch vs ns) (c.commit_intents_batch vs ns)
  pub remove_intents_batch :
      (ns : List IntentName) → Matches R (b.remove_intents_batch ns) (c.remove_intents_batch ns)
  pub collapse_tombstone :
      (k : Key) (ts : Timestamp) (older : List Timestamp)
      → Matches R (b.collapse_tombstone k ts older) (c.collapse_tombstone k ts older)

-- the same for the other methods of the trait too
pub record Implements {S T : Type 0} (R : S → T → Type 0) (Allowed : Timestamp → Type 0)
    (b : Backend S) (c : Backend T) : Type 0 where
  pub simulates : Simulates R Allowed b c
  pub get_committed_versions :
      (k : Key) → Answers R (b.get_committed_versions k) (c.get_committed_versions k)
  pub get_latest_committed :
      (k : Key) → Answers R (b.get_latest_committed k) (c.get_latest_committed k)
  pub keys_from_prefix :
      (prefix : Key) (start : Option Key) (limit : ℕ)
      → Answers R (b.keys_from_prefix prefix start limit) (c.keys_from_prefix prefix start limit)
  pub put_committed :
      (v : CommittedVersion)
      → Allowed v.commit_ts
      → Matches R (b.put_committed v) (c.put_committed v)
