-- ===== src/Engine/Read.antt =====
-- src/engine.rs: `read`, `read_with_version` and `read_own_write`.
use nexir_mvcc_core.Prelude.{◌&&◌, Option, none, some, ◌==◌, if◌then◌else◌}
use nexir_mvcc_core.Types.{Timestamp, TxnId, Key, Value, Intent, CommittedVersion, mutation_value}
use nexir_mvcc_core.Error.{ReadError}
use nexir_mvcc_core.Exec.{Result, ok, err, map_err, map_ok}
use nexir_mvcc_core.Backend.{Backend}

-- `version.and_then(|v| v.value)`
abbrev pub value_of : Option CommittedVersion → Option Value
value_of none = none
value_of (some v) = v.value

-- `version.map(|v| (v.commit_ts, v.value))`
abbrev pub stamped : Option CommittedVersion → Option (Timestamp × Option Value)
stamped none = none
stamped (some v) = some (v.commit_ts, v.value)

-- the mutation of the intent that the transaction holds, if it holds one
abbrev pub own_write : TxnId → Timestamp → Option Intent → Option (Option Value)
own_write txn_id start_ts none = none
own_write txn_id start_ts (some i) =
    if i.txn_id == txn_id && i.start_ts == start_ts then some (mutation_value i.mutation) else none

module _ {S : Type 0} (b : Backend S) where
  unfoldable pub read : Key → Timestamp → S → Result ReadError (Option Value)
  read key read_ts s =
      map_ok value_of (map_err ReadError.backend (b.get_visible_committed key read_ts s))

  unfoldable pub read_with_version :
      Key → Timestamp → S → Result ReadError (Option (Timestamp × Option Value))
  read_with_version key read_ts s =
      map_ok stamped (map_err ReadError.backend (b.get_visible_committed key read_ts s))

  unfoldable pub read_own_write :
      Key → TxnId → Timestamp → Timestamp → S → Result ReadError (Option Value)
  read_own_write key txn_id start_ts read_ts s = elim (b.get_intent key s) [
    | err e ↦ err (ReadError.backend e)
    | ok found ↦ elim (own_write txn_id start_ts found) [
      | some value ↦ ok value
      | none ↦ read key read_ts s
    ]
  ]
