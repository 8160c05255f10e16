-- ===== src/Types.antt =====
-- src/types.rs. A `Timestamp` is a `u128` and a `TxnId` a `u64`: plain numbers, whose range is
-- stated where it matters (`max_ts` is `u128::MAX`). Bytes are numbers; keys and values are lists.
use nexir_mvcc_core.Prelude.{ℕ, Bool, true, false, Option, none, some, List}

abbrev pub Timestamp : Type 0
Timestamp = ℕ

abbrev pub TxnId : Type 0
TxnId = ℕ

abbrev pub max_ts : Timestamp
max_ts = 340282366920938463463374607431768211455

abbrev pub Key : Type 0
Key = List ℕ

abbrev pub Value : Type 0
Value = List ℕ

pub data Mutation : Type 0 where
  put : Value → Mutation
  delete : Mutation

-- `Mutation::value`
abbrev pub mutation_value : Mutation → Option Value
mutation_value (put v) = some v
mutation_value delete = none

-- `Mutation::is_delete`
abbrev pub is_delete : Mutation → Bool
is_delete (put v) = false
is_delete delete = true

pub record Intent : Type 0 where
  pub key : Key
  pub txn_id : TxnId
  pub start_ts : Timestamp
  pub mutation : Mutation
  pub min_commit_ts : Option Timestamp

-- `value` is `none` for a tombstone.
pub record CommittedVersion : Type 0 where
  pub key : Key
  pub commit_ts : Timestamp
  pub value : Option Value

-- `value` is `none` for a delete.
pub record PhysicalWrite : Type 0 where
  pub key : Key
  pub value : Option Value

pub data ReadGuard : Type 0 where
  expected_version : Key → Timestamp → Option Timestamp → ReadGuard
  expected_value : Key → Timestamp → Option Value → ReadGuard
