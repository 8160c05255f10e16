-- ===== src/Backend/Default.antt =====
-- src/backend.rs: the default methods of the trait, for a backend without intent transactions.
use nexir_mvcc_core.Prelude.{Bool, false, Option, none, List, String, is_empty, if◌then◌else◌}
use nexir_mvcc_core.Types.{Timestamp, TxnId, Key, Intent, CommittedVersion}
use nexir_mvcc_core.Exec.{Result, Exec, ok, pure, raise}
use nexir_mvcc_core.Backend.{IntentName}

abbrev pub not_supported : String
not_supported = "intent transactions are not supported by this backend"

module _ {S : Type 0} where
  unfoldable pub get_intent : Key → S → Result String (Option Intent)
  get_intent key s = ok none

  unfoldable pub put_intent : Intent → Exec S String (Unit {0})
  put_intent intent = raise not_supported

  unfoldable pub remove_intent : Key → TxnId → Timestamp → Exec S String Bool
  remove_intent key txn_id start_ts = pure false

  unfoldable pub put_intents_batch : List Intent → Exec S String (Unit {0})
  put_intents_batch intents = if is_empty intents then pure tt else raise not_supported

  unfoldable pub commit_intents_batch :
      List CommittedVersion → List IntentName → Exec S String (Unit {0})
  commit_intents_batch commits removed_intents = raise not_supported

  unfoldable pub remove_intents_batch : List IntentName → Exec S String (Unit {0})
  remove_intents_batch intents = if is_empty intents then pure tt else raise not_supported
