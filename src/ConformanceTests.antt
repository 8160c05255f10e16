-- ===== src/ConformanceTests.antt =====
-- src/conformance.rs: the tests that its two macros make for a backend. A test is an action that
-- returns `Ok` where every call returns `Ok` and every assertion holds. The children hold the tests of
-- `test_committed_backend_conformance` (Committed) and of `test_backend_conformance` (Versions, Intents,
-- Scans).
pub mod Committed
pub mod Versions
pub mod Intents
pub mod Scans
pub mod Suite
pub mod Passing
pub mod Lines
pub mod Implementations
use nexir_mvcc_core.Prelude.{
  Bool, true, false, not, ◌&&◌, Option, none, some, List, [], ◌∷◌, ◌==◌, String,
}
use nexir_mvcc_core.Ord.{bytes_eq}
use nexir_mvcc_core.Types.{Timestamp, TxnId, Key, Value, Mutation, Intent, CommittedVersion}
use nexir_mvcc_core.Exec.{Result, ok, err, Exec, pure, query, mutate, ok_or, reject_if, ◌>>=◌, ◌>>◌}
use nexir_mvcc_core.Backend.{Backend}
use nexir_mvcc_core.Engine.Intents.{mutation_eq}
use nexir_mvcc_core.Engine.WriteBatches.{ts_eq, value_eq}

-- why a test panics: `unwrap` of an error or of `None`, or an assertion
pub data Panic : Type 0 where
  called : String → Panic
  unwrapped_none : Panic
  asserted : Panic

abbrev pub list_eq {ℓ} : {A : Type ℓ} → (A → A → Bool) → List A → List A → Bool
list_eq eq [] [] = true
list_eq eq (x ∷ xs) (y ∷ ys) = eq x y && list_eq eq xs ys
list_eq eq _ _ = false

abbrev pub keys_eq : List Key → List Key → Bool
keys_eq = list_eq bytes_eq

abbrev pub stamps_eq : List Timestamp → List Timestamp → Bool
stamps_eq = list_eq (λ a b. a == b)

-- a version's timestamp and value, for the field by field assertions
abbrev pub holds : Timestamp → Option Value → CommittedVersion → Bool
holds ts value v = v.commit_ts == ts && value_eq v.value value

-- `a == b` on intents
abbrev pub intent_eq : Intent → Intent → Bool
intent_eq i j =
    bytes_eq i.key j.key
    && i.txn_id == j.txn_id
    && i.start_ts == j.start_ts
    && mutation_eq i.mutation j.mutation
    && ts_eq i.min_commit_ts j.min_commit_ts

abbrev pub version : Key → Timestamp → Option Value → CommittedVersion
version key ts value = record { key = key; commit_ts = ts; value = value }

abbrev pub intent : Key → Mutation → Intent
intent key mutation = record {
  key = key;
  txn_id = 1;
  start_ts = 5;
  mutation = mutation;
  min_commit_ts = none;
}

abbrev pub is_err : {A : Type 0} → Result String A → Bool
is_err (ok a) = false
is_err (err e) = true

module _ {S : Type 0} where
  abbrev pub assert : Bool → Exec S Panic (Unit {0})
  assert holding = reject_if (not holding) Panic.asserted

  -- `backend.method(…).unwrap()` on `&self` and on `&mut self`
  abbrev pub get : {A : Type 0} → (S → Result String A) → Exec S Panic A
  get f = query Panic.called f

  abbrev pub call : {A : Type 0} → Exec S String A → Exec S Panic A
  call m = mutate Panic.called m

  abbrev pub unwrap : {A : Type 0} → Option A → Exec S Panic A
  unwrap o = ok_or Panic.unwrapped_none o

  -- `backend.method(…).is_err()`
  unfoldable pub get_is_err : {A : Type 0} → (S → Result String A) → Exec S Panic Bool
  get_is_err f s = (ok (is_err (f s)), s)

module _ {S : Type 0} (b : Backend S) where
  -- a loop of `put_committed`
  unfoldable pub put_all : List CommittedVersion → Exec S Panic (Unit {0})
  put_all [] = pure tt
  put_all (v ∷ vs) = do call (b.put_committed v); put_all vs
