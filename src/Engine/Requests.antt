-- ===== src/Engine/Requests.antt =====
-- src/engine.rs: the methods of `MvccEngine` as one type of requests with their whole answers, and a
-- client's session as a list of requests on one engine.
pub mod Collections
pub mod Snapshots
use nexir_mvcc_core.Prelude.{ℕ, Option, List, [], ◌∷◌}
use nexir_mvcc_core.Types.{Timestamp, TxnId, Key, Value, Mutation, PhysicalWrite, ReadGuard}
use nexir_mvcc_core.Error.{
  ReadError, PrewriteError, CommitError, AbortError, BatchPrewriteError, BatchCommitError,
  BatchAbortError, BatchError, GcError,
}
use nexir_mvcc_core.Exec.{Result}
use nexir_mvcc_core.Backend.{Backend}
use nexir_mvcc_core.Engine.Read
use nexir_mvcc_core.Engine.Intents
use nexir_mvcc_core.Engine.IntentBatches
use nexir_mvcc_core.Engine.WriteBatches
use nexir_mvcc_core.Engine.KeyGc
use nexir_mvcc_core.Engine.KeyGc.{KeyGcOptions, KeyGcPlan}
use nexir_mvcc_core.Engine.IncrementalGc
use nexir_mvcc_core.Engine.IncrementalGc.{GcOptions, IncrementalGcCursor, IncrementalGcResult}
use nexir_mvcc_core.Engine.FullGc
use nexir_mvcc_core.Engine.FullGc.{GcStats}

-- a method with its arguments; `gc` also has the fuel of its loop
pub data Request : Type 0 where
  read : Key → Timestamp → Request
  read_with_version : Key → Timestamp → Request
  read_own_write : Key → TxnId → Timestamp → Timestamp → Request
  prewrite : TxnId → Timestamp → Key → Mutation → Request
  commit : TxnId → Key → Timestamp → Timestamp → Request
  abort : TxnId → Key → Timestamp → Request
  prewrite_batch : TxnId → Timestamp → List PhysicalWrite → Request
  commit_batch : TxnId → Timestamp → Timestamp → List Key → Request
  abort_batch : TxnId → Timestamp → List Key → Request
  apply_direct_batch : Timestamp → List PhysicalWrite → Request
  apply_guarded_batch : Timestamp → List ReadGuard → List PhysicalWrite → Request
  plan_key_gc : Key → Timestamp → KeyGcOptions → Request
  gc_incremental : Timestamp → Option IncrementalGcCursor → GcOptions → Request
  gc : ℕ → Timestamp → GcOptions → Request

abbrev pub Answer : Request → Type 0
Answer (read key ts) = Result ReadError (Option Value)
Answer (read_with_version key ts) = Result ReadError (Option (Timestamp × Option Value))
Answer (read_own_write key txn_id start_ts ts) = Result ReadError (Option Value)
Answer (prewrite txn_id start_ts key mutation) = Result PrewriteError (Unit {0})
Answer (commit txn_id key start_ts commit_ts) = Result CommitError (Unit {0})
Answer (abort txn_id key start_ts) = Result AbortError (Unit {0})
Answer (prewrite_batch txn_id start_ts writes) = Result BatchPrewriteError (Unit {0})
Answer (commit_batch txn_id start_ts commit_ts keys) = Result BatchCommitError (Unit {0})
Answer (abort_batch txn_id start_ts keys) = Result BatchAbortError (Unit {0})
Answer (apply_direct_batch commit_ts writes) = Result BatchError (Unit {0})
Answer (apply_guarded_batch commit_ts guards writes) = Result BatchError (Unit {0})
Answer (plan_key_gc key ts options) = Result GcError KeyGcPlan
Answer (gc_incremental ts cursor options) = Result GcError IncrementalGcResult
Answer (gc fuel ts options) = Result GcError (Option GcStats)

module _ {S : Type 0} (b : Backend S) where
  -- a `&self` method leaves the state
  abbrev pub handle : (q : Request) → S → Answer q × S
  handle (read key ts) s = (Read.read b key ts s, s)
  handle (read_with_version key ts) s = (Read.read_with_version b key ts s, s)
  handle (read_own_write key txn_id start_ts ts) s =
      (Read.read_own_write b key txn_id start_ts ts s, s)
  handle (prewrite txn_id start_ts key mutation) s =
      Intents.prewrite b txn_id start_ts key mutation s
  handle (commit txn_id key start_ts commit_ts) s = Intents.commit b txn_id key start_ts commit_ts s
  handle (abort txn_id key start_ts) s = Intents.abort b txn_id key start_ts s
  handle (prewrite_batch txn_id start_ts writes) s =
      IntentBatches.prewrite_batch b txn_id start_ts writes s
  handle (commit_batch txn_id start_ts commit_ts keys) s =
      IntentBatches.commit_batch b txn_id start_ts commit_ts keys s
  handle (abort_batch txn_id start_ts keys) s = IntentBatches.abort_batch b txn_id start_ts keys s
  handle (apply_direct_batch commit_ts writes) s =
      WriteBatches.apply_direct_batch b commit_ts writes s
  handle (apply_guarded_batch commit_ts guards writes) s =
      WriteBatches.apply_guarded_batch b commit_ts guards writes s
  handle (plan_key_gc key ts options) s = (KeyGc.plan_key_gc b key ts options s, s)
  handle (gc_incremental ts cursor options) s = IncrementalGc.gc_incremental b ts cursor options s
  handle (gc fuel ts options) s = FullGc.gc b fuel ts options s

  -- the state after a session, failed requests included
  unfoldable pub serve : List Request → S → S
  serve [] s = s
  serve (q ∷ qs) s = serve qs (handle q s).1

-- the timestamps of the versions that a request writes satisfy `P`
abbrev pub Commits : (Timestamp → Type 0) → Request → Type 0
Commits P (commit txn_id key start_ts commit_ts) = P commit_ts
Commits P (commit_batch txn_id start_ts commit_ts keys) = P commit_ts
Commits P (apply_direct_batch commit_ts writes) = P commit_ts
Commits P (apply_guarded_batch commit_ts guards writes) = P commit_ts
Commits P _ = Unit
