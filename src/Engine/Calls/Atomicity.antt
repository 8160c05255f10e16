-- ===== src/Engine/Calls/Atomicity.antt =====
-- A call that fails leaves the backend as it was, over every backend whose own writes are
-- all-or-nothing.
use nexir_mvcc_core.Prelude.{true, false, List, [], ◌∷◌, Option, none, some, ◌≡◌, refl}
use nexir_mvcc_core.Types.{
  Timestamp, TxnId, Key, Mutation, Intent, CommittedVersion, PhysicalWrite, ReadGuard,
}
use nexir_mvcc_core.Exec.{Result, Exec, ok, err}
use nexir_mvcc_core.Exec.Keeps.{IsAtomic, atomic_rules}
use nexir_mvcc_core.Backend.{Backend, IntentName}
use nexir_mvcc_core.Backend.Reference.{reference}
use nexir_mvcc_core.Engine.Readings.{intent_rules, call_rules}
use nexir_mvcc_core.Engine.Intents.{prewrite, commit, abort, first_prewrite, answer_prewrite}
use nexir_mvcc_core.Engine.IntentBatches.{
  finish_prewrite, prewrite_batch, commit_batch, abort_batch,
}
use nexir_mvcc_core.Engine.WriteBatches.{apply_direct_batch, apply_guarded_batch}
use nexir_mvcc_core.Engine.Calls.{Call, run, outcome}

-- `put_intents_batch` and the others "must be all-or-nothing" (src/backend.rs): a write that fails
-- has written nothing.
pub record IsAllOrNothing {S : Type 0} (b : Backend S) : Type 0 where
  pub put_intent : (i : Intent) → IsAtomic (b.put_intent i)
  pub remove_intent : (k : Key) (t : TxnId) (s : Timestamp) → IsAtomic (b.remove_intent k t s)
  pub put_intents : (is : List Intent) → IsAtomic (b.put_intents_batch is)
  pub commit_intents :
      (vs : List CommittedVersion) (ns : List IntentName) → IsAtomic (b.commit_intents_batch vs ns)
  pub remove_intents : (ns : List IntentName) → IsAtomic (b.remove_intents_batch ns)
  pub put_versions : (vs : List CommittedVersion) → IsAtomic (b.put_committed_batch vs)

module _ {S E A : Type 0} where
  outcome_unchanged :
      (r : Result E A) (s s' : S)
      → ((e : E) → r ≡ err e → s' ≡ s)
      → (outcome (r, s')).0 ≡ false
      → (outcome (r, s')).1 ≡ s
  outcome_unchanged (ok a) s s' k q = cc
  outcome_unchanged (err e) s s' k q = k e refl

  unchanged :
      (m : Exec S E A) (s : S) → IsAtomic m → (outcome (m s)).0 ≡ false → (outcome (m s)).1 ≡ s
  unchanged m s h q = outcome_unchanged (m s).0 s (m s).1 (h.at s) q

module _ {S : Type 0} (b : Backend S) (h : IsAllOrNothing b) where
  first_prewrite-IsAtomic :
      (t : TxnId) (ts : Timestamp) (k : Key) (m : Mutation) → IsAtomic (first_prewrite b t ts k m)
  unfolding first_prewrite
  first_prewrite-IsAtomic t ts k m = search (atomic_rules, h.put_intent)

  answer-IsAtomic :
      (t : TxnId) (ts : Timestamp) (k : Key) (m : Mutation) (o : Option Intent)
      → IsAtomic (answer_prewrite b t ts k m o)
  unfolding answer_prewrite
  answer-IsAtomic t ts k m none = first_prewrite-IsAtomic t ts k m
  answer-IsAtomic t ts k m (some i) = search intent_rules

  prewrite-IsAtomic :
      (t : TxnId) (ts : Timestamp) (k : Key) (m : Mutation) → IsAtomic (prewrite b t ts k m)
  unfolding prewrite
  prewrite-IsAtomic t ts k m = search (intent_rules, answer-IsAtomic)

  commit-IsAtomic : (t : TxnId) (k : Key) (ts c : Timestamp) → IsAtomic (commit b t k ts c)
  unfolding commit
  commit-IsAtomic t k ts c = search (intent_rules, h.commit_intents) depth 12

  abort-IsAtomic : (t : TxnId) (k : Key) (ts : Timestamp) → IsAtomic (abort b t k ts)
  unfolding abort
  abort-IsAtomic t k ts = search (intent_rules, h.remove_intent)

  prewrite_batch-IsAtomic :
      (t : TxnId) (ts : Timestamp) (ws : List PhysicalWrite) → IsAtomic (prewrite_batch b t ts ws)
  unfolding prewrite_batch finish_prewrite
  prewrite_batch-IsAtomic t ts ws = search (call_rules, h.put_intents) depth 8

  commit_batch-IsAtomic :
      (t : TxnId) (ts c : Timestamp) (ks : List Key) → IsAtomic (commit_batch b t ts c ks)
  unfolding commit_batch
  commit_batch-IsAtomic t ts c ks = search (call_rules, h.commit_intents) depth 8

  abort_batch-IsAtomic :
      (t : TxnId) (ts : Timestamp) (ks : List Key) → IsAtomic (abort_batch b t ts ks)
  unfolding abort_batch
  abort_batch-IsAtomic t ts [] = search call_rules
  abort_batch-IsAtomic t ts (k ∷ ks) = search (call_rules, h.remove_intents) depth 8

  direct-IsAtomic : (c : Timestamp) (ws : List PhysicalWrite) → IsAtomic (apply_direct_batch b c ws)
  unfolding apply_direct_batch
  direct-IsAtomic c ws = search (call_rules, h.put_versions) depth 8

  guarded-IsAtomic :
      (c : Timestamp) (gs : List ReadGuard) (ws : List PhysicalWrite)
      → IsAtomic (apply_guarded_batch b c gs ws)
  unfolding apply_guarded_batch
  guarded-IsAtomic c gs ws = search (call_rules, h.put_versions) depth 8

  -- Over a backend whose writes are all-or-nothing, a call of any of the eight transaction and batch
  -- methods that does not return `Ok` leaves the state exactly as it was.
  pub run-IsAtomic : (c : Call) (s : S) → (run b c s).0 ≡ false → (run b c s).1 ≡ s
  unfolding run
  run-IsAtomic (Call.prewrite t ts k m) s q = unchanged _ s (prewrite-IsAtomic t ts k m) q
  run-IsAtomic (Call.commit t k ts c) s q = unchanged _ s (commit-IsAtomic t k ts c) q
  run-IsAtomic (Call.abort t k ts) s q = unchanged _ s (abort-IsAtomic t k ts) q
  run-IsAtomic (Call.prewrite_batch t ts ws) s q = unchanged _ s (prewrite_batch-IsAtomic t ts ws) q
  run-IsAtomic (Call.commit_batch t ts c ks) s q = unchanged _ s (commit_batch-IsAtomic t ts c ks) q
  run-IsAtomic (Call.abort_batch t ts ks) s q = unchanged _ s (abort_batch-IsAtomic t ts ks) q
  run-IsAtomic (Call.apply_direct_batch c ws) s q = unchanged _ s (direct-IsAtomic c ws) q
  run-IsAtomic (Call.apply_guarded_batch c gs ws) s q = unchanged _ s (guarded-IsAtomic c gs ws) q

pub reference-IsAllOrNothing : IsAllOrNothing reference
reference-IsAllOrNothing = record {
  put_intent = λ i. record { at = λ s e h. cc };
  remove_intent = λ k t ts. record { at = λ s e h. cc };
  put_intents = λ is. record { at = λ s e h. cc };
  commit_intents = λ vs ns. record { at = λ s e h. cc };
  remove_intents = λ ns. record { at = λ s e h. cc };
  put_versions = λ vs. record { at = λ s e h. cc };
}

pub outcome-ok :
    {S E : Type 0} (r : Result E (Unit {0})) (s : S)
    → (outcome (r, s)).0 ≡ true
    → ◌≡◌ {A = Result E (Unit {0}) × S} (r, s) (ok tt, (outcome (r, s)).1)
outcome-ok (ok u) s h = refl
outcome-ok (err e) s h = cc
