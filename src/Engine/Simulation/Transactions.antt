-- ===== src/Engine/Simulation/Transactions.antt =====
-- The transactions and batches of src/engine.rs over two backends in step.
use nexir_mvcc_core.Prelude.{Option, none, some}
use nexir_mvcc_core.Types.{Timestamp, TxnId, Key, Mutation, Intent}
use nexir_mvcc_core.Exec.Matches.{Matches, matching_rules}
use nexir_mvcc_core.Backend.{Backend}
use nexir_mvcc_core.Backend.Simulation.{Simulates}
use nexir_mvcc_core.Engine.Intents
use nexir_mvcc_core.Engine.Intents.{
  repeat_prewrite, first_prewrite, answer_prewrite, prewrite, commit, abort,
}

module _ {S T : Type 0} (R : S → T → Type 0) where
  Matches-check_min :
      (c : Timestamp) (o : Option Timestamp)
      → Matches R (Intents.check_min c o) (Intents.check_min c o)
  unfolding Intents.check_min
  Matches-check_min c none = search matching_rules
  Matches-check_min c (some m) = search matching_rules

  Matches-check_latest :
      (c : Timestamp) (o : Option Timestamp)
      → Matches R (Intents.check_latest c o) (Intents.check_latest c o)
  unfolding Intents.check_latest
  Matches-check_latest c none = search matching_rules
  Matches-check_latest c (some m) = search matching_rules

  Matches-repeat_prewrite :
      (t : TxnId) (ts : Timestamp) (m : Mutation) (i : Intent)
      → Matches R (repeat_prewrite t ts m i) (repeat_prewrite t ts m i)
  unfolding repeat_prewrite
  Matches-repeat_prewrite t ts m i = search matching_rules

module _ {S T : Type 0} (R : S → T → Type 0) (Allowed : Timestamp → Type 0) (b : Backend S)
    (c : Backend T) (h : Simulates R Allowed b c) where
  Matches-first_prewrite :
      (t : TxnId) (ts : Timestamp) (k : Key) (m : Mutation)
      → Matches R (first_prewrite b t ts k m) (first_prewrite c t ts k m)
  unfolding first_prewrite
  Matches-first_prewrite t ts k m = search (matching_rules, h.get_latest_commit_ts, h.put_intent)

  Matches-answer_prewrite :
      (t : TxnId) (ts : Timestamp) (k : Key) (m : Mutation) (o : Option Intent)
      → Matches R (answer_prewrite b t ts k m o) (answer_prewrite c t ts k m o)
  unfolding answer_prewrite
  Matches-answer_prewrite t ts k m none = Matches-first_prewrite t ts k m
  Matches-answer_prewrite t ts k m (some i) = Matches-repeat_prewrite R t ts m i

  pub Matches-prewrite :
      (t : TxnId) (ts : Timestamp) (k : Key) (m : Mutation)
      → Matches R (prewrite b t ts k m) (prewrite c t ts k m)
  unfolding prewrite
  Matches-prewrite t ts k m = search (matching_rules, h.get_intent, Matches-answer_prewrite)

  pub Matches-commit :
      (t : TxnId) (k : Key) (ts commit_ts : Timestamp)
      → Allowed commit_ts
      → Matches R (commit b t k ts commit_ts) (commit c t k ts commit_ts)
  unfolding commit
  Matches-commit t k ts commit_ts a =
      search
        (
          matching_rules, Matches-check_min, Matches-check_latest, h.get_intent,
          h.get_latest_commit_ts, h.commit_intents_batch, a,
        )
        depth 12

  pub Matches-abort :
      (t : TxnId) (k : Key) (ts : Timestamp) → Matches R (abort b t k ts) (abort c t k ts)
  unfolding abort
  Matches-abort t k ts = search (matching_rules, h.remove_intent)
