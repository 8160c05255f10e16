-- ===== src/Error.antt =====
-- src/error.rs: one data type for each error enum, the constructors' fields in the source's order.
-- The `#[error]` texts are display strings and are left out.
use nexir_mvcc_core.Prelude.{String, Option}
use nexir_mvcc_core.Types.{Timestamp, TxnId, Key}

pub data ReadError : Type 0 where
  backend : String → ReadError

pub data PrewriteError : Type 0 where
  key_locked : TxnId → PrewriteError
  write_conflict : PrewriteError
  backend : String → PrewriteError
  intent_already_exists : PrewriteError

pub data CommitError : Type 0 where
  intent_not_found : CommitError
  txn_id_mismatch : CommitError
  start_ts_mismatch : CommitError
  invalid_commit_timestamp : (start_ts commit_ts : Timestamp) → CommitError
  duplicate_commit_timestamp : (commit_ts : Timestamp) → CommitError
  commit_ts_too_old : (commit_ts latest_commit_ts : Timestamp) → CommitError
  commit_ts_too_early : (commit_ts min_commit_ts : Timestamp) → CommitError
  backend : String → CommitError

pub data AbortError : Type 0 where
  backend : String → AbortError

pub data GcError : Type 0 where
  backend : String → GcError
  invalid_gc_budget : GcError
  invalid_key_gc_budget : GcError

pub data CodecError : Type 0 where
  encode : String → CodecError
  decode : String → CodecError

pub data BatchError : Type 0 where
  empty_batch : BatchError
  invalid_commit_timestamp : (read_ts commit_ts : Timestamp) → BatchError
  commit_ts_too_old : (key : Key) (commit_ts latest_commit_ts : Timestamp) → BatchError
  no_read_guards : BatchError
  duplicate_key_in_batch : (key : Key) → BatchError
  key_locked : (key : Key) (txn_id : TxnId) → BatchError
  guard_failed_newer_version : (key : Key) (read_ts actual_commit_ts : Timestamp) → BatchError
  guard_failed_version_mismatch : (key : Key) (expected actual : Option Timestamp) → BatchError
  guard_failed_value_mismatch : (key : Key) → BatchError
  backend : String → BatchError

pub data BatchPrewriteError : Type 0 where
  empty_batch : BatchPrewriteError
  duplicate_key_in_batch : (key : Key) → BatchPrewriteError
  key_locked : (key : Key) (txn_id : TxnId) → BatchPrewriteError
  write_conflict : (key : Key) → BatchPrewriteError
  intent_already_exists : (key : Key) → BatchPrewriteError
  partial_batch_replay : BatchPrewriteError
  backend : String → BatchPrewriteError

pub data BatchCommitError : Type 0 where
  empty_batch : BatchCommitError
  duplicate_key_in_batch : (key : Key) → BatchCommitError
  intent_not_found : (key : Key) → BatchCommitError
  txn_id_mismatch : (key : Key) → BatchCommitError
  start_ts_mismatch : (key : Key) → BatchCommitError
  invalid_commit_timestamp : (start_ts commit_ts : Timestamp) → BatchCommitError
  commit_ts_too_early : (key : Key) (commit_ts min_commit_ts : Timestamp) → BatchCommitError
  commit_ts_too_old : (key : Key) (commit_ts latest_commit_ts : Timestamp) → BatchCommitError
  backend : String → BatchCommitError

pub data BatchAbortError : Type 0 where
  duplicate_key_in_batch : (key : Key) → BatchAbortError
  backend : String → BatchAbortError
