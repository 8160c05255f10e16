-- ===== src/Engine/WriteBatches.antt =====
-- src/engine.rs: `apply_direct_batch` and `apply_guarded_batch`.
use nexir_mvcc_core.Prelude.{
  Bool, true, false, not, Option, none, some, List, [], ◌∷◌, ◌==◌, leb, ltb, is_empty,
}
use nexir_mvcc_core.Ord.{bytes_eq}
use nexir_mvcc_core.Types.{
  Timestamp, Key, Value, Intent, CommittedVersion, PhysicalWrite, ReadGuard, expected_version,
  expected_value,
}
use nexir_mvcc_core.Error.{BatchError}
use nexir_mvcc_core.Exec.{Exec, pure, raise, query, mutate, reject_if, ◌>>=◌, ◌>>◌}
use nexir_mvcc_core.Backend.{Backend}
use nexir_mvcc_core.Backend.InMemory.{commit_ts_of}
use nexir_mvcc_core.Engine.Read.{value_of}
use nexir_mvcc_core.Engine.Batch.{reject_duplicates, keys_of, versions_of}

-- `a == b` on optional timestamps and on optional values
unfoldable pub ts_eq : Option Timestamp → Option Timestamp → Bool
ts_eq none none = true
ts_eq (some a) (some c) = a == c
ts_eq _ _ = false

unfoldable pub value_eq : Option Value → Option Value → Bool
value_eq none none = true
value_eq (some v) (some w) = bytes_eq v w
value_eq _ _ = false

abbrev pub guard_key : ReadGuard → Key
guard_key (expected_version key read_ts e) = key
guard_key (expected_value key read_ts e) = key

abbrev pub guard_read_ts : ReadGuard → Timestamp
guard_read_ts (expected_version key read_ts e) = read_ts
guard_read_ts (expected_value key read_ts e) = read_ts

module _ {S : Type 0} where
  -- `if let Some(intent) = … { return Err(KeyLocked) }`
  unfoldable pub reject_locked : Key → Option Intent → Exec S BatchError (Unit {0})
  reject_locked key none = pure tt
  reject_locked key (some i) = raise (BatchError.key_locked key i.txn_id)

  unfoldable pub reject_old : Timestamp → Key → Option Timestamp → Exec S BatchError (Unit {0})
  reject_old commit_ts key none = pure tt
  reject_old commit_ts key (some latest_ts) =
      reject_if (leb commit_ts latest_ts) (BatchError.commit_ts_too_old key commit_ts latest_ts)

  unfoldable pub reject_newer : Timestamp → Key → Option Timestamp → Exec S BatchError (Unit {0})
  reject_newer read_ts key none = pure tt
  reject_newer read_ts key (some latest_ts) =
      reject_if (ltb read_ts latest_ts)
        (BatchError.guard_failed_newer_version key read_ts latest_ts)

  -- the comparison of a guard with the version that is visible to it
  unfoldable pub compare_guard : ReadGuard → Option CommittedVersion → Exec S BatchError (Unit {0})
  unfolding ts_eq value_eq
  compare_guard (expected_version key read_ts expected) found =
      reject_if (not (ts_eq (commit_ts_of found) expected))
        (BatchError.guard_failed_version_mismatch key expected (commit_ts_of found))
  compare_guard (expected_value key read_ts expected) found =
      reject_if (not (value_eq (value_of found) expected))
        (BatchError.guard_failed_value_mismatch key)

module _ {S : Type 0} (b : Backend S) where
  -- one round of the validation loop over the writes
  unfoldable pub check_write : Timestamp → PhysicalWrite → Exec S BatchError (Unit {0})
  check_write commit_ts w = do
    found ← query BatchError.backend (b.get_intent w.key)
    reject_locked w.key found
    latest ← query BatchError.backend (b.get_latest_commit_ts w.key)
    reject_old commit_ts w.key latest

  unfoldable pub check_writes : Timestamp → List PhysicalWrite → Exec S BatchError (Unit {0})
  check_writes commit_ts [] = pure tt
  check_writes commit_ts (w ∷ ws) = do check_write commit_ts w; check_writes commit_ts ws

  unfoldable pub apply_direct_batch : Timestamp → List PhysicalWrite → Exec S BatchError (Unit {0})
  apply_direct_batch commit_ts writes = do
    reject_if (is_empty writes) BatchError.empty_batch
    reject_duplicates BatchError.duplicate_key_in_batch (keys_of writes)
    check_writes commit_ts writes
    mutate BatchError.backend (b.put_committed_batch (versions_of commit_ts writes))

  -- one round of the loop over the guards
  unfoldable pub check_guard : Timestamp → ReadGuard → Exec S BatchError (Unit {0})
  check_guard commit_ts g = do
    reject_if (leb commit_ts (guard_read_ts g))
        (BatchError.invalid_commit_timestamp (guard_read_ts g) commit_ts)
    found ← query BatchError.backend (b.get_intent (guard_key g))
    reject_locked (guard_key g) found
    latest ← query BatchError.backend (b.get_latest_commit_ts (guard_key g))
    reject_newer (guard_read_ts g) (guard_key g) latest
    visible_version ←
        query BatchError.backend (b.get_visible_committed (guard_key g) (guard_read_ts g))
    compare_guard g visible_version

  unfoldable pub check_guards : Timestamp → List ReadGuard → Exec S BatchError (Unit {0})
  check_guards commit_ts [] = pure tt
  check_guards commit_ts (g ∷ gs) = do check_guard commit_ts g; check_guards commit_ts gs

  unfoldable pub apply_guarded_batch :
      Timestamp → List ReadGuard → List PhysicalWrite → Exec S BatchError (Unit {0})
  apply_guarded_batch commit_ts guards writes = do
    reject_if (is_empty writes) BatchError.empty_batch
    reject_if (is_empty guards) BatchError.no_read_guards
    reject_duplicates BatchError.duplicate_key_in_batch (keys_of writes)
    check_guards commit_ts guards
    check_writes commit_ts writes
    mutate BatchError.backend (b.put_committed_batch (versions_of commit_ts writes))
