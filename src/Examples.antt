-- ===== src/Examples.antt =====
-- Runs of the engine on small inputs, and the theorems at inputs that meet their hypotheses.
mod Codec
mod Gc
mod Collection
mod Storage
mod Sessions
mod Suite
use nexir_mvcc_core.Prelude.{
  Bool, true, ◌&&◌, ◌≢◌, ◌↔◌, ◌<◌, ◌≤◌, none, some, List, [], ◌∷◌, ◌≡◌, refl, arith, All, leb,
  if◌then◌else◌,
}
use nexir_mvcc_core.Ord.{bytes_eq, bytes_cmp}
use nexir_mvcc_core.BTreeMap.{get, insert, remove}
use nexir_mvcc_core.Types.{
  Timestamp, TxnId, Key, Value, Intent, PhysicalWrite, ReadGuard, put, delete, expected_value,
}
use nexir_mvcc_core.Error.{PrewriteError}
use nexir_mvcc_core.Exec.{ok, err, ◌>>=◌}
use nexir_mvcc_core.Backend.Reference.{
  View, empty, reference, visible, latest, release_key, store_intent, drop_intent, store_version,
}
use nexir_mvcc_core.Engine.Read.{read, read_own_write}
use nexir_mvcc_core.Engine.Batch.{contains, first_duplicate, reject_duplicates}
use nexir_mvcc_core.Engine.Intents.{
  mutation_eq, repeat_prewrite, first_prewrite, answer_prewrite, prewrite, check_latest, check_min,
  commit, abort, new_intent,
}
use nexir_mvcc_core.Engine.IntentBatches
use nexir_mvcc_core.Engine.IntentBatches.{
  check_existing, check_absent, check_found, check_prewrite, count_existing, finish_prewrite,
  prewrite_batch, prepare_commit, prepare_commits, commit_batch,
}
use nexir_mvcc_core.Engine.WriteBatches.{
  ts_eq, value_eq, reject_locked, reject_old, reject_newer, compare_guard, check_write,
  check_writes, check_guard, check_guards, apply_direct_batch, apply_guarded_batch,
}
use nexir_mvcc_core.Engine.Effects.{find_write}
use nexir_mvcc_core.Engine.Accepted.{Holds, IsWritable, pending}
use nexir_mvcc_core.Engine.Calls.{Call, run, run_all}
use nexir_mvcc_core.Engine.Calls.Atomicity.{run-IsAtomic, reference-IsAllOrNothing}
use nexir_mvcc_core.Engine.Calls.Consistency.{IsConsistent, run-IsConsistent, run_all-IsConsistent}
use nexir_mvcc_core.Engine.Calls.Snapshots.{
  read-commit, read-commit_batch, read_after, read-apply_direct_batch, read-apply_guarded_batch,
}
use nexir_mvcc_core.Engine.Calls.Conflicts.{commit_total, no_lost_update}
use nexir_mvcc_core.Engine.Calls.Ownership.{read_own_write-prewrite}
use nexir_mvcc_core.Engine.Calls.Stability.{read-run_stable}

abbrev a : Key
a = b'a' ∷ []

abbrev b : Key
b = b'b' ∷ []

abbrev nine : Value
nine = b'9' ∷ []

abbrev ten : Value
ten = b'1' ∷ b'0' ∷ []

-- `b` is written at 5, and transaction 1, started at 10, has an intent on `a`
abbrev setup : List Call
setup =
    Call.apply_direct_batch 5 (record { key = b; value = some ten } ∷ [])
    ∷ Call.prewrite 1 10 a (put nine)
    ∷ []

-- all that a call on the reference backend runs through
engine_runs : Bool
unfolding run_all run ◌>>=◌ get insert remove bytes_eq bytes_cmp visible latest release_key
    store_intent drop_intent store_version read contains first_duplicate reject_duplicates
    mutation_eq repeat_prewrite first_prewrite answer_prewrite prewrite check_latest check_min
    commit abort check_existing check_absent check_found check_prewrite count_existing
    finish_prewrite prewrite_batch IntentBatches.check_min IntentBatches.check_latest prepare_commit
    prepare_commits commit_batch ts_eq value_eq reject_locked reject_old reject_newer compare_guard
    check_write check_writes check_guard check_guards apply_direct_batch apply_guarded_batch
engine_runs = true

abbrev sample : View
sample = run_all reference setup empty

sample-IsConsistent : IsConsistent sample
sample-IsConsistent = run_all-IsConsistent setup

abbrev committed : View
committed = (commit reference 1 a 10 20 sample).1

committed_lem : commit reference 1 a 10 20 sample ≡ (ok tt, committed)
unfolding engine_runs
committed_lem = refl

committed_reads_nine : read reference a 25 committed ≡ ok (some nine)
unfolding engine_runs
committed_reads_nine = refl

committed_keeps_b : read reference b 25 committed ≡ ok (some ten)
unfolding engine_runs
committed_keeps_b = refl

committed_earlier : read reference a 15 committed ≡ ok none
unfolding engine_runs
committed_earlier = refl

run-IsAtomic_example : (run reference (Call.prewrite 2 12 a delete) sample).1 ≡ sample
run-IsAtomic_example =
    run-IsAtomic reference reference-IsAllOrNothing (Call.prewrite 2 12 a delete) sample
      (unfold engine_runs in refl)

run-IsConsistent_example : IsConsistent (run reference (Call.commit 1 a 10 20) sample).1
run-IsConsistent_example = run-IsConsistent sample sample-IsConsistent (Call.commit 1 a 10 20)

run_all-IsConsistent_example : IsConsistent (run_all reference setup empty)
run_all-IsConsistent_example = run_all-IsConsistent setup

read-run_stable_example :
    read reference a 15 (run reference (Call.commit 1 a 10 20) sample).1
    ≡ read reference a 15 sample
read-run_stable_example =
    read-run_stable sample sample-IsConsistent a 15 (Call.commit 1 a 10 20) (omega arith)

no_lost_update_example :
    (prewrite reference 2 10 a (put ten) sample ≡ (err (PrewriteError.key_locked 1), sample))
    × (prewrite reference 2 10 a (put ten) committed
        ≡ (err PrewriteError.write_conflict, committed))
no_lost_update_example =
    no_lost_update 1 a 10 20 sample committed sample-IsConsistent 2 10 (put ten) (omega arith)
      (omega arith) committed_lem

commit_total_example : ((commit reference 1 a 10 11 sample).0 ≡ ok tt) ↔ (
    (i : Intent) × (sample.intent_of a ≡ some i)
    × (i.txn_id ≡ 1)
    × (i.start_ts ≡ 10)
    × (10 < 11)
    × ((n : Timestamp) → i.min_commit_ts ≡ some n → n ≤ 11))
commit_total_example = commit_total 1 a 10 11 sample sample-IsConsistent

-- the intent meets these conditions
commits_at_eleven : (commit reference 1 a 10 11 sample).0 ≡ ok tt
commits_at_eleven =
    commit_total_example.1
      (new_intent 1 10 a (put nine), unfold engine_runs in refl, refl, refl, omega arith, λ n h. cc)

-- transaction 2 deletes `b`
abbrev deleting : View
deleting = (prewrite reference 2 12 b delete sample).1

read_own_write-prewrite_example :
    (read_own_write reference b 2 12 20 deleting ≡ ok none)
    × ((t : TxnId) (s : Timestamp)
        → (2 ≡ t → 12 ≢ s)
        → read_own_write reference b t s 20 deleting ≡ read reference b 20 sample)
read_own_write-prewrite_example =
    read_own_write-prewrite 2 12 b delete sample deleting sample-IsConsistent
      (unfold engine_runs in refl) 20

read-commit_example :
    (read reference a 20 committed ≡ (
      if bytes_eq a a && leb 20 20
      then ok (pending (sample.intent_of a))
      else read reference a 20 sample))
    × (committed.intent_of a ≡ (if bytes_eq a a then none else sample.intent_of a))
read-commit_example = read-commit 1 a 10 20 sample committed sample-IsConsistent committed_lem a 20

abbrev batch : List Key
batch = a ∷ b ∷ []

-- transaction 3, started at 10, has intents on both keys
abbrev locked : View
locked =
    run_all reference
      (Call.prewrite_batch 3 10
          (record { key = a; value = some nine } ∷ record { key = b; value = none } ∷ [])
        ∷ [])
      empty

abbrev batch_committed : View
batch_committed = (commit_batch reference 3 10 20 batch locked).1

read-commit_batch_example :
    (read reference b 20 batch_committed ≡ (
      if contains batch b && leb 20 20
      then ok (pending (locked.intent_of b))
      else read reference b 20 locked))
    × (batch_committed.intent_of b ≡ (if contains batch b then none else locked.intent_of b))
read-commit_batch_example =
    read-commit_batch 3 10 20 batch locked batch_committed
      (run_all-IsConsistent (
        Call.prewrite_batch 3 10
          (record { key = a; value = some nine } ∷ record { key = b; value = none } ∷ [])
        ∷ []))
      (unfold engine_runs in refl) b 20

abbrev on_c : List PhysicalWrite
on_c = record { key = b'c' ∷ []; value = some nine } ∷ []

abbrev direct_done : View
direct_done = (apply_direct_batch reference 7 on_c sample).1

read-apply_direct_batch_example :
    All (λ x. IsWritable 7 sample x.key) on_c
    × ((k : Key) (r : Timestamp)
        → read reference k r direct_done ≡ read_after 7 (find_write k on_c) sample k r)
read-apply_direct_batch_example =
    read-apply_direct_batch 7 on_c sample direct_done sample-IsConsistent
      (unfold engine_runs in refl)

-- replace the value of `b`, if it is still ten
abbrev if_ten : List ReadGuard
if_ten = expected_value b 6 (some ten) ∷ []

abbrev on_b : List PhysicalWrite
on_b = record { key = b; value = some nine } ∷ []

abbrev guarded_done : View
guarded_done = (apply_guarded_batch reference 8 if_ten on_b sample).1

read-apply_guarded_batch_example :
    All (Holds 8 sample) if_ten
    × All (λ x. IsWritable 8 sample x.key) on_b
    × ((k : Key) (r : Timestamp)
        → read reference k r guarded_done ≡ read_after 8 (find_write k on_b) sample k r)
read-apply_guarded_batch_example =
    read-apply_guarded_batch 8 on_b sample guarded_done if_ten sample-IsConsistent
      (unfold engine_runs in refl)
