-- ===== src/Engine/IntentBatches.antt =====
-- src/engine.rs: `prewrite_batch`, `commit_batch` and `abort_batch`.
use nexir_mvcc_core.Prelude.{
  ℕ, ◌+◌, not, ◌&&◌, ◌||◌, Option, none, some, List, [], ◌∷◌, ◌==◌, leb, ltb, length, is_empty,
  some_and, if◌then◌else◌,
}
use nexir_mvcc_core.Types.{
  Timestamp, TxnId, Key, Intent, CommittedVersion, PhysicalWrite, mutation_value,
}
use nexir_mvcc_core.Error.{BatchPrewriteError, BatchCommitError, BatchAbortError}
use nexir_mvcc_core.Exec.{Exec, pure, raise, query, mutate, ok_or, reject_if, ◌>>=◌, ◌>>◌}
use nexir_mvcc_core.Backend.{Backend, IntentName}
use nexir_mvcc_core.Engine.Intents.{mutation_eq, new_intent}
use nexir_mvcc_core.Engine.Batch.{reject_duplicates, keys_of, mutation_of}

abbrev pub intents_of : TxnId → Timestamp → List PhysicalWrite → List Intent
intents_of txn_id start_ts [] = []
intents_of txn_id start_ts (w ∷ ws) =
    new_intent txn_id start_ts w.key (mutation_of w.value) ∷ intents_of txn_id start_ts ws

unfoldable pub add_held :
    TxnId → Timestamp → Key → Option Intent → List IntentName → List IntentName
add_held txn_id start_ts key found held =
    if some_and found (λ i. i.txn_id == txn_id && i.start_ts == start_ts)
    then (key, txn_id, start_ts) ∷ held
    else held

module _ {S : Type 0} where
  -- the check of a write whose key has an intent
  unfoldable pub check_existing :
      TxnId → Timestamp → PhysicalWrite → Intent → Exec S BatchPrewriteError (Unit {0})
  unfolding mutation_eq
  check_existing txn_id start_ts w i = do
    reject_if (not (i.txn_id == txn_id)) (BatchPrewriteError.key_locked w.key i.txn_id)
    reject_if (not (i.start_ts == start_ts) || not (mutation_eq i.mutation (mutation_of w.value)))
        (BatchPrewriteError.intent_already_exists w.key)

  unfoldable pub check_min : Key → Timestamp → Option Timestamp → Exec S BatchCommitError (Unit {0})
  check_min key commit_ts none = pure tt
  check_min key commit_ts (some min_ts) =
      reject_if (ltb commit_ts min_ts) (BatchCommitError.commit_ts_too_early key commit_ts min_ts)

  unfoldable pub check_latest :
      Key → Timestamp → Option Timestamp → Exec S BatchCommitError (Unit {0})
  check_latest key commit_ts none = pure tt
  check_latest key commit_ts (some latest_ts) =
      reject_if (leb commit_ts latest_ts)
        (BatchCommitError.commit_ts_too_old key commit_ts latest_ts)

module _ {S : Type 0} (b : Backend S) where
  -- the check of a write whose key has no intent
  unfoldable pub check_absent : Timestamp → PhysicalWrite → Exec S BatchPrewriteError (Unit {0})
  check_absent start_ts w = do
    latest ← query BatchPrewriteError.backend (b.get_latest_commit_ts w.key)
    reject_if (some_and latest (λ ts. ltb start_ts ts)) (BatchPrewriteError.write_conflict w.key)

  unfoldable pub check_found :
      TxnId → Timestamp → PhysicalWrite → ℕ → Option Intent → Exec S BatchPrewriteError ℕ
  check_found txn_id start_ts w existing_count (some i) = do
    check_existing txn_id start_ts w i
    pure (existing_count + 1)
  check_found txn_id start_ts w existing_count none = do
    check_absent start_ts w
    pure existing_count

  -- one round of the validation loop: the new `existing_count`
  unfoldable pub check_prewrite :
      TxnId → Timestamp → PhysicalWrite → ℕ → Exec S BatchPrewriteError ℕ
  check_prewrite txn_id start_ts w existing_count = do
    found ← query BatchPrewriteError.backend (b.get_intent w.key)
    check_found txn_id start_ts w existing_count found

  unfoldable pub count_existing :
      TxnId → Timestamp → List PhysicalWrite → ℕ → Exec S BatchPrewriteError ℕ
  count_existing txn_id start_ts [] existing_count = pure existing_count
  count_existing txn_id start_ts (w ∷ ws) existing_count = do
    count ← check_prewrite txn_id start_ts w existing_count
    count_existing txn_id start_ts ws count

  -- the end of `prewrite_batch`, by the number of intents that are there
  unfoldable pub finish_prewrite :
      TxnId → Timestamp → List PhysicalWrite → ℕ → Exec S BatchPrewriteError (Unit {0})
  finish_prewrite txn_id start_ts writes existing_count =
      if existing_count == length writes
      then pure tt
      else if ltb 0 existing_count
      then raise BatchPrewriteError.partial_batch_replay
      else mutate BatchPrewriteError.backend
          (b.put_intents_batch (intents_of txn_id start_ts writes))

  unfoldable pub prewrite_batch :
      TxnId → Timestamp → List PhysicalWrite → Exec S BatchPrewriteError (Unit {0})
  prewrite_batch txn_id start_ts writes = do
    reject_if (is_empty writes) BatchPrewriteError.empty_batch
    reject_duplicates BatchPrewriteError.duplicate_key_in_batch (keys_of writes)
    existing_count ← count_existing txn_id start_ts writes 0
    finish_prewrite txn_id start_ts writes existing_count

  -- one round of the loop of `commit_batch`: the version and the intent to remove
  unfoldable pub prepare_commit :
      TxnId → Timestamp → Timestamp → Key → Exec S BatchCommitError (CommittedVersion × IntentName)
  prepare_commit txn_id start_ts commit_ts key = do
    found ← query BatchCommitError.backend (b.get_intent key)
    intent ← ok_or (BatchCommitError.intent_not_found key) found
    reject_if (not (intent.txn_id == txn_id)) (BatchCommitError.txn_id_mismatch key)
    reject_if (not (intent.start_ts == start_ts)) (BatchCommitError.start_ts_mismatch key)
    check_min key commit_ts intent.min_commit_ts
    latest ← query BatchCommitError.backend (b.get_latest_commit_ts key)
    check_latest key commit_ts latest
    pure (
      record { key = key; commit_ts = commit_ts; value = mutation_value intent.mutation },
      (key, txn_id, start_ts),
    )

  unfoldable pub prepare_commits :
      TxnId
      → Timestamp
      → Timestamp
      → List Key
      → Exec S BatchCommitError (List CommittedVersion × List IntentName)
  prepare_commits txn_id start_ts commit_ts [] = pure ([], [])
  prepare_commits txn_id start_ts commit_ts (key ∷ keys) = do
    first ← prepare_commit txn_id start_ts commit_ts key
    rest ← prepare_commits txn_id start_ts commit_ts keys
    pure (first.0 ∷ rest.0, first.1 ∷ rest.1)

  unfoldable pub commit_batch :
      TxnId → Timestamp → Timestamp → List Key → Exec S BatchCommitError (Unit {0})
  commit_batch txn_id start_ts commit_ts keys = do
    reject_if (is_empty keys) BatchCommitError.empty_batch
    reject_duplicates BatchCommitError.duplicate_key_in_batch keys
    reject_if (leb commit_ts start_ts)
        (BatchCommitError.invalid_commit_timestamp start_ts commit_ts)
    prepared ← prepare_commits txn_id start_ts commit_ts keys
    mutate BatchCommitError.backend (b.commit_intents_batch prepared.0 prepared.1)

  -- the loop of `abort_batch`: the listed keys whose intent the transaction holds
  unfoldable pub held_intents :
      TxnId → Timestamp → List Key → Exec S BatchAbortError (List IntentName)
  held_intents txn_id start_ts [] = pure []
  held_intents txn_id start_ts (key ∷ keys) = do
    found ← query BatchAbortError.backend (b.get_intent key)
    rest ← held_intents txn_id start_ts keys
    pure (add_held txn_id start_ts key found rest)

  unfoldable pub abort_batch : TxnId → Timestamp → List Key → Exec S BatchAbortError (Unit {0})
  abort_batch txn_id start_ts [] = pure tt
  abort_batch txn_id start_ts (key ∷ keys) = do
    reject_duplicates BatchAbortError.duplicate_key_in_batch (key ∷ keys)
    removed_intents ← held_intents txn_id start_ts (key ∷ keys)
    mutate BatchAbortError.backend (b.remove_intents_batch removed_intents)
