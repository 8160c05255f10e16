-- ===== src/Engine/Readings.antt =====
-- The checks of the transaction and batch methods only read the backend's state.
use nexir_mvcc_core.Prelude.{ℕ, List, [], ◌∷◌, Option, none, some}
use nexir_mvcc_core.Types.{
  Timestamp, TxnId, Key, Mutation, Intent, CommittedVersion, PhysicalWrite, ReadGuard,
  expected_version, expected_value,
}
use nexir_mvcc_core.Exec.Keeps.{
  IsReading, IsReading-bind, IsReading-query, IsReading-pure, IsAtomic, reading_rules, atomic_rules,
}
use nexir_mvcc_core.Backend.{Backend}
use nexir_mvcc_core.Engine.Batch.{reject_duplicates, first_duplicate, reject_some}
use nexir_mvcc_core.Engine.Intents.{repeat_prewrite, check_latest, check_min}
use nexir_mvcc_core.Engine.IntentBatches
use nexir_mvcc_core.Engine.IntentBatches.{
  check_existing, check_absent, check_found, check_prewrite, count_existing, prewrite_batch,
  prepare_commit, prepare_commits, commit_batch, held_intents, abort_batch,
}
use nexir_mvcc_core.Engine.WriteBatches.{
  reject_locked, reject_old, reject_newer, compare_guard, check_write, check_writes, check_guard,
  check_guards,
}

module _ {S : Type 0} where
  pub IsReading-reject_some :
      {E : Type 0} (wrap : Key → E) (o : Option Key) → IsReading {S = S} (reject_some wrap o)
  IsReading-reject_some wrap none = search reading_rules
  IsReading-reject_some wrap (some k) = search reading_rules

  pub IsReading-reject_duplicates :
      {E : Type 0} (wrap : Key → E) (ks : List Key) → IsReading {S = S} (reject_duplicates wrap ks)
  unfolding reject_duplicates
  IsReading-reject_duplicates wrap ks = IsReading-reject_some wrap (first_duplicate [] ks)

  pub IsReading-repeat :
      (t : TxnId) (ts : Timestamp) (m : Mutation) (i : Intent)
      → IsReading {S = S} (repeat_prewrite t ts m i)
  unfolding repeat_prewrite
  IsReading-repeat t ts m i = search reading_rules

  pub IsReading-check_latest :
      (c : Timestamp) (o : Option Timestamp) → IsReading {S = S} (check_latest c o)
  unfolding check_latest
  IsReading-check_latest c none = search reading_rules
  IsReading-check_latest c (some l) = search reading_rules

  pub IsReading-check_min :
      (c : Timestamp) (o : Option Timestamp) → IsReading {S = S} (check_min c o)
  unfolding check_min
  IsReading-check_min c none = search reading_rules
  IsReading-check_min c (some l) = search reading_rules

  pub IsReading-check_existing :
      (t : TxnId) (ts : Timestamp) (w : PhysicalWrite) (i : Intent)
      → IsReading {S = S} (check_existing t ts w i)
  unfolding check_existing
  IsReading-check_existing t ts w i = search reading_rules

  pub IsReading-batch_min :
      (k : Key) (c : Timestamp) (o : Option Timestamp)
      → IsReading {S = S} (IntentBatches.check_min k c o)
  unfolding IntentBatches.check_min
  IsReading-batch_min k c none = search reading_rules
  IsReading-batch_min k c (some l) = search reading_rules

  pub IsReading-batch_latest :
      (k : Key) (c : Timestamp) (o : Option Timestamp)
      → IsReading {S = S} (IntentBatches.check_latest k c o)
  unfolding IntentBatches.check_latest
  IsReading-batch_latest k c none = search reading_rules
  IsReading-batch_latest k c (some l) = search reading_rules

  pub IsReading-reject_locked :
      (k : Key) (o : Option Intent) → IsReading {S = S} (reject_locked k o)
  unfolding reject_locked
  IsReading-reject_locked k none = search reading_rules
  IsReading-reject_locked k (some i) = search reading_rules

  pub IsReading-reject_old :
      (c : Timestamp) (k : Key) (o : Option Timestamp) → IsReading {S = S} (reject_old c k o)
  unfolding reject_old
  IsReading-reject_old c k none = search reading_rules
  IsReading-reject_old c k (some l) = search reading_rules

  pub IsReading-reject_newer :
      (r : Timestamp) (k : Key) (o : Option Timestamp) → IsReading {S = S} (reject_newer r k o)
  unfolding reject_newer
  IsReading-reject_newer r k none = search reading_rules
  IsReading-reject_newer r k (some l) = search reading_rules

  pub IsReading-compare_guard :
      (g : ReadGuard) (o : Option CommittedVersion) → IsReading {S = S} (compare_guard g o)
  unfolding compare_guard
  IsReading-compare_guard (expected_version k r e) o = search reading_rules
  IsReading-compare_guard (expected_value k r e) o = search reading_rules

pub ruleset intent_rules = (
  atomic_rules, IsReading-repeat, IsReading-check_latest, IsReading-check_min,
  IsReading-reject_duplicates, IsReading-check_existing, IsReading-batch_min,
  IsReading-batch_latest, IsReading-reject_locked, IsReading-reject_old, IsReading-reject_newer,
  IsReading-compare_guard,
)

module _ {S : Type 0} (b : Backend S) where
  pub IsReading-check_absent :
      (ts : Timestamp) (w : PhysicalWrite) → IsReading (check_absent b ts w)
  unfolding check_absent
  IsReading-check_absent ts w = search intent_rules

  pub IsReading-check_found :
      (t : TxnId) (ts : Timestamp) (w : PhysicalWrite) (n : ℕ) (o : Option Intent)
      → IsReading (check_found b t ts w n o)
  unfolding check_found
  IsReading-check_found t ts w n none = search (intent_rules, IsReading-check_absent)
  IsReading-check_found t ts w n (some i) = search intent_rules

  pub IsReading-check_prewrite :
      (t : TxnId) (ts : Timestamp) (w : PhysicalWrite) (n : ℕ)
      → IsReading (check_prewrite b t ts w n)
  unfolding check_prewrite
  IsReading-check_prewrite t ts w n = search (intent_rules, IsReading-check_found)

  pub IsReading-count_existing :
      (t : TxnId) (ts : Timestamp) (ws : List PhysicalWrite) (n : ℕ)
      → IsReading (count_existing b t ts ws n)
  unfolding count_existing
  IsReading-count_existing t ts [] n = search intent_rules
  IsReading-count_existing t ts (w ∷ ws) n =
      search (intent_rules, IsReading-check_prewrite t ts w, IsReading-count_existing t ts ws)

  pub IsReading-prepare_commit :
      (t : TxnId) (ts c : Timestamp) (k : Key) → IsReading (prepare_commit b t ts c k)
  unfolding prepare_commit
  IsReading-prepare_commit t ts c k = search intent_rules depth 12

  pub IsReading-prepare_commits :
      (t : TxnId) (ts c : Timestamp) (ks : List Key) → IsReading (prepare_commits b t ts c ks)
  unfolding prepare_commits
  IsReading-prepare_commits t ts c [] = search intent_rules
  IsReading-prepare_commits t ts c (k ∷ ks) =
      search (intent_rules, IsReading-prepare_commit t ts c k, IsReading-prepare_commits t ts c ks)

  pub IsReading-held_intents :
      (t : TxnId) (ts : Timestamp) (ks : List Key) → IsReading (held_intents b t ts ks)
  unfolding held_intents
  IsReading-held_intents t ts [] = search intent_rules
  IsReading-held_intents t ts (k ∷ ks) =
      IsReading-bind _ _ (IsReading-query _ _)
        (λ found. IsReading-bind _ _ (IsReading-held_intents t ts ks) (λ rest. IsReading-pure _))

  pub IsReading-check_write : (c : Timestamp) (w : PhysicalWrite) → IsReading (check_write b c w)
  unfolding check_write
  IsReading-check_write c w = search intent_rules depth 8

  pub IsReading-check_writes :
      (c : Timestamp) (ws : List PhysicalWrite) → IsReading (check_writes b c ws)
  unfolding check_writes
  IsReading-check_writes c [] = search intent_rules
  IsReading-check_writes c (w ∷ ws) =
      search (intent_rules, IsReading-check_write c w, IsReading-check_writes c ws)

  pub IsReading-check_guard : (c : Timestamp) (g : ReadGuard) → IsReading (check_guard b c g)
  unfolding check_guard
  IsReading-check_guard c g = search intent_rules depth 12

  pub IsReading-check_guards :
      (c : Timestamp) (gs : List ReadGuard) → IsReading (check_guards b c gs)
  unfolding check_guards
  IsReading-check_guards c [] = search intent_rules
  IsReading-check_guards c (g ∷ gs) =
      search (intent_rules, IsReading-check_guard c g, IsReading-check_guards c gs)

pub ruleset call_rules = (
  intent_rules, IsReading-count_existing, IsReading-prepare_commits, IsReading-held_intents,
  IsReading-check_writes, IsReading-check_guards,
)
