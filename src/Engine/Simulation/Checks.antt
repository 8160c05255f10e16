-- ===== src/Engine/Simulation/Checks.antt =====
-- The checks of the batches of src/engine.rs that read no backend, over two states in step.
use nexir_mvcc_core.Prelude.{Option, none, some, List, []}
use nexir_mvcc_core.Types.{
  Timestamp, TxnId, Key, Intent, PhysicalWrite, ReadGuard, CommittedVersion, expected_version,
  expected_value,
}
use nexir_mvcc_core.Exec.Matches.{Matches, matching_rules, Matches-bind_where, Matches-mutate}
use nexir_mvcc_core.Engine.Batch.{first_duplicate, reject_some, reject_duplicates}
use nexir_mvcc_core.Engine.IntentBatches
use nexir_mvcc_core.Engine.IntentBatches.{
  check_existing, check_absent, check_found, check_prewrite, count_existing, finish_prewrite,
  prewrite_batch, prepare_commit, prepare_commits, commit_batch, held_intents, abort_batch,
}
use nexir_mvcc_core.Engine.WriteBatches.{reject_locked, reject_old, reject_newer, compare_guard}

module _ {S T : Type 0} (R : S → T → Type 0) where
  pub Matches-reject_duplicates :
      {E : Type 0} (wrap : Key → E) (ks : List Key)
      → Matches R (reject_duplicates wrap ks) (reject_duplicates wrap ks)
  unfolding reject_duplicates
  Matches-reject_duplicates wrap ks = rejected (first_duplicate [] ks)
    where
      rejected : (o : Option Key) → Matches R (reject_some wrap o) (reject_some wrap o)
      rejected none = search matching_rules
      rejected (some k) = search matching_rules

  pub Matches-check_min :
      (k : Key) (c : Timestamp) (o : Option Timestamp)
      → Matches R (IntentBatches.check_min k c o) (IntentBatches.check_min k c o)
  unfolding IntentBatches.check_min
  Matches-check_min k c none = search matching_rules
  Matches-check_min k c (some m) = search matching_rules

  pub Matches-check_latest :
      (k : Key) (c : Timestamp) (o : Option Timestamp)
      → Matches R (IntentBatches.check_latest k c o) (IntentBatches.check_latest k c o)
  unfolding IntentBatches.check_latest
  Matches-check_latest k c none = search matching_rules
  Matches-check_latest k c (some m) = search matching_rules

  pub Matches-check_existing :
      (t : TxnId) (ts : Timestamp) (w : PhysicalWrite) (i : Intent)
      → Matches R (check_existing t ts w i) (check_existing t ts w i)
  unfolding check_existing
  Matches-check_existing t ts w i = search matching_rules

  pub Matches-reject_locked :
      (k : Key) (o : Option Intent) → Matches R (reject_locked k o) (reject_locked k o)
  unfolding reject_locked
  Matches-reject_locked k none = search matching_rules
  Matches-reject_locked k (some i) = search matching_rules

  pub Matches-reject_old :
      (c : Timestamp) (k : Key) (o : Option Timestamp)
      → Matches R (reject_old c k o) (reject_old c k o)
  unfolding reject_old
  Matches-reject_old c k none = search matching_rules
  Matches-reject_old c k (some m) = search matching_rules

  pub Matches-reject_newer :
      (c : Timestamp) (k : Key) (o : Option Timestamp)
      → Matches R (reject_newer c k o) (reject_newer c k o)
  unfolding reject_newer
  Matches-reject_newer c k none = search matching_rules
  Matches-reject_newer c k (some m) = search matching_rules

  pub Matches-compare_guard :
      (g : ReadGuard) (o : Option CommittedVersion)
      → Matches R (compare_guard g o) (compare_guard g o)
  unfolding compare_guard
  Matches-compare_guard (expected_version k ts e) o = search matching_rules
  Matches-compare_guard (expected_value k ts e) o = search matching_rules

pub ruleset check_rules = (
  matching_rules, Matches-reject_duplicates, Matches-check_min, Matches-check_latest,
  Matches-check_existing, Matches-reject_locked, Matches-reject_old, Matches-reject_newer,
  Matches-compare_guard,
)
