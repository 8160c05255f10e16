-- ===== src/Engine/Intents.antt =====
-- src/engine.rs: the single-key intent transactions `prewrite`, `commit` and `abort`.
use nexir_mvcc_core.Prelude.{
  Bool, not, Option, none, some, [], ◌∷◌, ◌==◌, leb, ltb, if◌then◌else◌, some_and,
}
use nexir_mvcc_core.Ord.{bytes_eq}
use nexir_mvcc_core.Types.{Timestamp, TxnId, Key, Mutation, put, delete, Intent, mutation_value}
use nexir_mvcc_core.Error.{PrewriteError, CommitError, AbortError}
use nexir_mvcc_core.Exec.{Exec, pure, raise, query, mutate, ok_or, reject_if, ◌>>=◌, ◌>>◌}
use nexir_mvcc_core.Backend.{Backend}

-- `a == b` on mutations
unfoldable pub mutation_eq : Mutation → Mutation → Bool
mutation_eq (put v) (put w) = bytes_eq v w
mutation_eq delete delete = Bool.true
mutation_eq _ _ = Bool.false

abbrev pub new_intent : TxnId → Timestamp → Key → Mutation → Intent
new_intent txn_id start_ts key mutation = record {
  key = key;
  txn_id = txn_id;
  start_ts = start_ts;
  mutation = mutation;
  min_commit_ts = none;
}

module _ {S : Type 0} where
  -- `prewrite` where the key has an intent: only a repeated call of its owner succeeds
  unfoldable pub repeat_prewrite :
      TxnId → Timestamp → Mutation → Intent → Exec S PrewriteError (Unit {0})
  unfolding mutation_eq
  repeat_prewrite txn_id start_ts mutation intent = do
    reject_if (not (intent.txn_id == txn_id)) (PrewriteError.key_locked intent.txn_id)
    reject_if (not (intent.start_ts == start_ts)) PrewriteError.intent_already_exists
    reject_if (not (mutation_eq intent.mutation mutation)) PrewriteError.intent_already_exists
    pure tt

  -- the check for a retroactive commit
  unfoldable pub check_latest : Timestamp → Option Timestamp → Exec S CommitError (Unit {0})
  check_latest commit_ts none = pure tt
  check_latest commit_ts (some latest_ts) =
      if leb commit_ts latest_ts
      then (if commit_ts == latest_ts
          then raise (CommitError.duplicate_commit_timestamp commit_ts)
          else raise (CommitError.commit_ts_too_old commit_ts latest_ts))
      else pure tt

  -- the check of the intent's minimum
  unfoldable pub check_min : Timestamp → Option Timestamp → Exec S CommitError (Unit {0})
  check_min commit_ts none = pure tt
  check_min commit_ts (some min_ts) =
      reject_if (ltb commit_ts min_ts) (CommitError.commit_ts_too_early commit_ts min_ts)

module _ {S : Type 0} (b : Backend S) where
  -- `prewrite` where the key has no intent
  unfoldable pub first_prewrite :
      TxnId → Timestamp → Key → Mutation → Exec S PrewriteError (Unit {0})
  first_prewrite txn_id start_ts key mutation = do
    latest ← query PrewriteError.backend (b.get_latest_commit_ts key)
    reject_if (some_and latest (λ ts. ltb start_ts ts)) PrewriteError.write_conflict
    mutate PrewriteError.backend (b.put_intent (new_intent txn_id start_ts key mutation))

  unfoldable pub answer_prewrite :
      TxnId → Timestamp → Key → Mutation → Option Intent → Exec S PrewriteError (Unit {0})
  answer_prewrite txn_id start_ts key mutation (some intent) =
      repeat_prewrite txn_id start_ts mutation intent
  answer_prewrite txn_id start_ts key mutation none = first_prewrite txn_id start_ts key mutation

  unfoldable pub prewrite : TxnId → Timestamp → Key → Mutation → Exec S PrewriteError (Unit {0})
  prewrite txn_id start_ts key mutation = do
    found ← query PrewriteError.backend (b.get_intent key)
    answer_prewrite txn_id start_ts key mutation found

  unfoldable pub commit : TxnId → Key → Timestamp → Timestamp → Exec S CommitError (Unit {0})
  commit txn_id key start_ts commit_ts = do
    found ← query CommitError.backend (b.get_intent key)
    intent ← ok_or CommitError.intent_not_found found
    reject_if (not (intent.txn_id == txn_id)) CommitError.txn_id_mismatch
    reject_if (not (intent.start_ts == start_ts)) CommitError.start_ts_mismatch
    reject_if (leb commit_ts start_ts) (CommitError.invalid_commit_timestamp start_ts commit_ts)
    check_min commit_ts intent.min_commit_ts
    latest ← query CommitError.backend (b.get_latest_commit_ts key)
    check_latest commit_ts latest
    mutate CommitError.backend (
        b.commit_intents_batch
          (record { key = key; commit_ts = commit_ts; value = mutation_value intent.mutation } ∷ [])
          ((key, txn_id, start_ts) ∷ []))

  unfoldable pub abort : TxnId → Key → Timestamp → Exec S AbortError (Unit {0})
  abort txn_id key start_ts = do
    removed ← mutate AbortError.backend (b.remove_intent key txn_id start_ts)
    pure tt
