-- ===== src/Engine/Simulation/Reads.antt =====
-- The reads of src/engine.rs and its planning of a key's collection over two backends in step.
use nexir_mvcc_core.Prelude.{Option, none, some, Bool, ◌≡◌, refl, arith}
use nexir_mvcc_core.Types.{Timestamp, TxnId, Key, CommittedVersion}
use nexir_mvcc_core.Error.{GcError}
use nexir_mvcc_core.Exec.{Result, ok, err, and_then}
use nexir_mvcc_core.Exec.Matches.{Answers}
use nexir_mvcc_core.Backend.{Backend}
use nexir_mvcc_core.Backend.Simulation.{Simulates}
use nexir_mvcc_core.Engine.Read.{read, read_with_version, read_own_write}
use nexir_mvcc_core.Engine.KeyGc.{
  KeyGcOptions, empty_plan, is_final_tombstone, plan_below, plan_key_gc,
}

module _ {S T : Type 0} (R : S → T → Type 0) (Allowed : Timestamp → Type 0) (b : Backend S)
    (c : Backend T) (h : Simulates R Allowed b c) where
  pub Answers-read : (k : Key) (ts : Timestamp) → Answers R (read b k ts) (read c k ts)
  unfolding read
  Answers-read k ts = record { alike = λ s t r. rw ((h.get_visible_committed k ts).alike s t r) }

  pub Answers-read_with_version :
      (k : Key) (ts : Timestamp) → Answers R (read_with_version b k ts) (read_with_version c k ts)
  unfolding read_with_version
  Answers-read_with_version k ts = record {
    alike = λ s t r. rw ((h.get_visible_committed k ts).alike s t r);
  }

  pub Answers-read_own_write :
      (k : Key) (n : TxnId) (start ts : Timestamp)
      → Answers R (read_own_write b k n start ts) (read_own_write c k n start ts)
  unfolding read_own_write
  Answers-read_own_write k n start ts = record {
    alike = λ s t r.
        let found = (h.get_intent k).alike s t r in
        let seen = (Answers-read k ts).alike s t r in ground arith;
  }

  Answers-is_final_tombstone :
      (k : Key) (v : CommittedVersion) (collapse : Bool)
      → Answers R (is_final_tombstone b k v collapse) (is_final_tombstone c k v collapse)
  unfolding is_final_tombstone
  Answers-is_final_tombstone k v collapse = record {
    alike = λ s t r. rw ((h.get_intent k).alike s t r, (h.get_latest_commit_ts k).alike s t r);
  }

  Answers-plan_below :
      (k : Key) (v : CommittedVersion) (o : KeyGcOptions)
      → Answers R (plan_below b k v o) (plan_below c k v o)
  unfolding plan_below
  Answers-plan_below k v o = record {
    alike = λ s t r. rw (
      (Answers-is_final_tombstone k v o.collapse_final_tombstones).alike s t r,
      (h.get_committed_timestamps_before k v.commit_ts o.max_versions_examined).alike s t r,
    );
  }

  module _ (k : Key) (o : KeyGcOptions) (s : S) (t : T) (r : R s t) where
    alike-keeper :
        (x : Result GcError (Option CommittedVersion))
        → and_then x
            (λ keeper. elim keeper [ none ↦ ok (empty_plan k) | some v ↦ plan_below b k v o s ])
          ≡ and_then x
              (λ keeper. elim keeper [ none ↦ ok (empty_plan k) | some v ↦ plan_below c k v o t ])
    alike-keeper (err e) = refl
    alike-keeper (ok none) = refl
    alike-keeper (ok (some v)) = (Answers-plan_below k v o).alike s t r

  pub Answers-plan_key_gc :
      (k : Key) (ts : Timestamp) (o : KeyGcOptions)
      → Answers R (plan_key_gc b k ts o) (plan_key_gc c k ts o)
  unfolding plan_key_gc
  Answers-plan_key_gc k ts o = record {
    alike = λ s t r. rw ((h.get_visible_committed k ts).alike s t r, alike-keeper k o s t r);
  }
