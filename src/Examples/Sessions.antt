-- ===== src/Examples/Sessions.antt =====
-- Sessions on the engine of src/engine.rs over `InMemoryBackend`: a transaction, a batch and a
-- collection.
use nexir_mvcc_core.Prelude.{
  if◌then◌else◌, ◌&&◌, leb, ◌+◌, none, some, List, [], ◌∷◌, ◌≡◌, refl, All, arith, length, true,
}
use nexir_mvcc_core.Ord.{bytes_eq, bytes_cmp, pair_ord, bytes_ord, nat_ord}
use nexir_mvcc_core.BTreeMap.{get, insert, range_inclusive}
use nexir_mvcc_core.Types.{Key, put}
use nexir_mvcc_core.Exec.{ok, ◌>>=◌}
use nexir_mvcc_core.Backend.InMemory.{
  InMemoryBackend, in_memory, new, get_intent, get_latest_commit_ts, put_committed_batch,
  store_version, put_intent, store_intent, commit_intents_batch, drop_intent,
}
use nexir_mvcc_core.Backend.Reference.{reference, empty}
use nexir_mvcc_core.Backend.Conformance.{view, history}
use nexir_mvcc_core.Engine.Intents.{
  commit, check_min, check_latest, prewrite, answer_prewrite, first_prewrite,
}
use nexir_mvcc_core.Engine.Accepted.{pending}
use nexir_mvcc_core.Engine.Simulation.Commits.{read-commit-in_memory}
use nexir_mvcc_core.Engine.Read.{read}
use nexir_mvcc_core.Engine.Batch.{contains, first_duplicate, reject_duplicates}
use nexir_mvcc_core.Engine.WriteBatches.{
  apply_direct_batch, check_writes, check_write, reject_locked, reject_old,
}
use nexir_mvcc_core.Engine.FullGc.{GcStats, gc}
use nexir_mvcc_core.Engine.IncrementalGc.{GcOptions}
use nexir_mvcc_core.Engine.IncrementalGc.Cursor.{keys_of}
use nexir_mvcc_core.Engine.IncrementalGc.Totals.{total}
use nexir_mvcc_core.Engine.IncrementalGc.Passes.{IsBudget}
use nexir_mvcc_core.Engine.IncrementalGc.Guarantees.{collectable}
use nexir_mvcc_core.Engine.Requests.{Request, handle, serve}
use nexir_mvcc_core.Engine.Requests.Snapshots.{Spares}
use nexir_mvcc_core.Engine.Simulation.Sessions.{in_memory-serves}
use nexir_mvcc_core.Engine.Simulation.Transfer.{
  IsSound, Proper, serve-IsSound, serve-in_memory-IsSound, read-serve-in_memory,
  gc-in_memory_collects,
}

abbrev k : Key
k = 107 ∷ []

abbrev options : GcOptions
options = record {
  budget = record { max_keys = 3; max_versions = 2 };
  collapse_final_tombstones = true;
}

options-IsBudget : IsBudget options
options-IsBudget = record {
  some_keys = omega arith;
  some_versions = omega arith;
  keys_fit = omega arith;
  versions_fit = omega arith;
}

-- `k` is written directly at 5
abbrev before : List Request
before = Request.apply_direct_batch 5 (record { key = k; value = some (1 ∷ []) } ∷ []) ∷ []

before-Proper : All Proper before
before-Proper = ((omega arith, tt), tt)

abbrev sample : InMemoryBackend
sample = serve in_memory before new

sample-IsSound : IsSound sample
sample-IsSound = serve-in_memory-IsSound before before-Proper

-- transaction 1 replaces it at 20, and versions below the safe point 12 are collected
abbrev later : List Request
later =
    Request.prewrite 1 10 k (put (2 ∷ []))
    ∷ Request.commit 1 k 10 20
    ∷ Request.gc_incremental 12 none options
    ∷ []

later-Proper : All Proper later
later-Proper = ((tt, tt), ((omega arith, tt), ((tt, options-IsBudget), tt)))

later-Spares : All (Spares 15) later
later-Spares = (tt, (omega arith, (omega arith, tt)))

serve-in_memory-IsSound_example : IsSound (serve in_memory later new)
serve-in_memory-IsSound_example = serve-in_memory-IsSound later later-Proper

in_memory-serves_example :
    (handle in_memory (Request.read k 25) (serve in_memory before new)).0
    ≡ (handle reference (Request.read k 25) (serve reference before empty)).0
in_memory-serves_example = in_memory-serves before (omega arith, tt) (Request.read k 25) tt

read-serve-in_memory_example :
    read in_memory k 15 (serve in_memory later sample) ≡ read in_memory k 15 sample
read-serve-in_memory_example =
    read-serve-in_memory sample sample-IsSound later later-Proper k 15 later-Spares

sample-size :
    length (keys_of (view sample).keys) + total (keys_of (view sample).keys) (view sample) ≡ 2
unfolding serve apply_direct_batch ◌>>=◌ reject_duplicates first_duplicate contains check_writes
    check_write get_intent reject_locked get get_latest_commit_ts reject_old range_inclusive
    put_committed_batch store_version insert history bytes_eq bytes_cmp
sample-size = refl

gc-in_memory_collects_example :
    (stats : GcStats) × (s' : InMemoryBackend) × (gc in_memory 3 12 options sample
      ≡ (ok (some stats), s'))
    × IsSound s'
    × (collectable 12 true (view s') k ≡ [])
    × ((view s').intent_of k ≡ (view sample).intent_of k)
    × (read in_memory k 15 s' ≡ read in_memory k 15 sample)
gc-in_memory_collects_example =
    gc-in_memory_collects sample sample-IsSound 12 options options-IsBudget 3
      (omega (arith, sample-size)) k 15 (omega arith)

-- transaction 1 has an intent on `k`, whose version at 5 is older
abbrev locked : InMemoryBackend
locked = serve in_memory (Request.prewrite 1 10 k (put (2 ∷ [])) ∷ []) sample

locked-IsSound : IsSound locked
locked-IsSound =
    serve-IsSound sample sample-IsSound (Request.prewrite 1 10 k (put (2 ∷ [])) ∷ []) ((tt, tt), tt)

locked_commits : (commit in_memory 1 k 10 20 locked).0 ≡ ok tt
unfolding serve apply_direct_batch ◌>>=◌ reject_duplicates first_duplicate contains check_writes
    check_write get_intent reject_locked get get_latest_commit_ts reject_old range_inclusive
    put_committed_batch store_version insert bytes_eq bytes_cmp commit check_min check_latest
    prewrite answer_prewrite first_prewrite put_intent store_intent commit_intents_batch drop_intent
locked_commits = refl

read-commit-in_memory_example : read in_memory k 25 (commit in_memory 1 k 10 20 locked).1 ≡ (
    if bytes_eq k k && leb 20 25
    then ok (pending ((view locked).intent_of k))
    else read in_memory k 25 locked)
read-commit-in_memory_example =
    read-commit-in_memory locked locked-IsSound 1 k 10 20 (omega arith) locked_commits k 25
