-- ===== src/Engine/Calls.antt =====
-- src/engine.rs: the eight `&mut self` methods of transactions and batches as one type of calls, and
-- a client's history as a list of calls on one engine.
pub mod Atomicity
pub mod Consistency
pub mod Snapshots
pub mod Stability
pub mod Conflicts
pub mod Ownership
use nexir_mvcc_core.Prelude.{Bool, true, false, List, [], ◌∷◌, ◌≤◌}
use nexir_mvcc_core.Types.{Timestamp, TxnId, Key, Mutation, PhysicalWrite, ReadGuard}
use nexir_mvcc_core.Exec.{Result, Exec, ok, err}
use nexir_mvcc_core.Backend.{Backend}
use nexir_mvcc_core.Engine.Intents
use nexir_mvcc_core.Engine.IntentBatches
use nexir_mvcc_core.Engine.WriteBatches

pub data Call : Type 0 where
  prewrite : TxnId → Timestamp → Key → Mutation → Call
  commit : TxnId → Key → Timestamp → Timestamp → Call
  abort : TxnId → Key → Timestamp → Call
  prewrite_batch : TxnId → Timestamp → List PhysicalWrite → Call
  commit_batch : TxnId → Timestamp → Timestamp → List Key → Call
  abort_batch : TxnId → Timestamp → List Key → Call
  apply_direct_batch : Timestamp → List PhysicalWrite → Call
  apply_guarded_batch : Timestamp → List ReadGuard → List PhysicalWrite → Call

-- whether the call returned `Ok`, and the state after it
abbrev pub outcome : {S E A : Type 0} → Result E A × S → Bool × S
outcome (ok a, s) = (true, s)
outcome (err e, s) = (false, s)

module _ {S : Type 0} (b : Backend S) where
  unfoldable pub run : Call → S → Bool × S
  run (prewrite txn_id start_ts key mutation) s =
      outcome (Intents.prewrite b txn_id start_ts key mutation s)
  run (commit txn_id key start_ts commit_ts) s =
      outcome (Intents.commit b txn_id key start_ts commit_ts s)
  run (abort txn_id key start_ts) s = outcome (Intents.abort b txn_id key start_ts s)
  run (prewrite_batch txn_id start_ts writes) s =
      outcome (IntentBatches.prewrite_batch b txn_id start_ts writes s)
  run (commit_batch txn_id start_ts commit_ts keys) s =
      outcome (IntentBatches.commit_batch b txn_id start_ts commit_ts keys s)
  run (abort_batch txn_id start_ts keys) s =
      outcome (IntentBatches.abort_batch b txn_id start_ts keys s)
  run (apply_direct_batch commit_ts writes) s =
      outcome (WriteBatches.apply_direct_batch b commit_ts writes s)
  run (apply_guarded_batch commit_ts guards writes) s =
      outcome (WriteBatches.apply_guarded_batch b commit_ts guards writes s)

  -- the state after a list of calls, failed ones included
  unfoldable pub run_all : List Call → S → S
  run_all [] s = s
  run_all (c ∷ cs) s = run_all cs (run c s).1
