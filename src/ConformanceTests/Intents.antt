-- ===== src/ConformanceTests/Intents.antt =====
-- src/conformance.rs: the tests of `test_backend_conformance` on intents.
use nexir_mvcc_core.Prelude.{not, some, [], ◌∷◌, ◌==◌, length, is_none, is_some}
use nexir_mvcc_core.Types.{Key, Value, put, delete}
use nexir_mvcc_core.Exec.{Exec, ◌>>=◌, ◌>>◌}
use nexir_mvcc_core.Backend.{Backend}
use nexir_mvcc_core.Engine.Intents.{mutation_eq}
use nexir_mvcc_core.Engine.WriteBatches.{ts_eq}
use nexir_mvcc_core.ConformanceTests.{Panic, intent_eq, intent, version, assert, get, call, unwrap}

abbrev pub kb1 : Key
kb1 = b'k' ∷ b'b' ∷ b'1' ∷ []

abbrev pub kb2 : Key
kb2 = b'k' ∷ b'b' ∷ b'2' ∷ []

abbrev pub k1 : Key
k1 = b'k' ∷ b'1' ∷ []

abbrev pub v1 : Value
v1 = b'v' ∷ b'1' ∷ []

abbrev pub i1 : Value
i1 = b'i' ∷ b'1' ∷ []

module _ {S : Type 0} (b : Backend S) where
  unfoldable pub test_intent_batch_persistence : Exec S Panic (Unit {0})
  test_intent_batch_persistence = do
    call (b.put_intents_batch (intent kb1 (put v1) ∷ intent kb2 delete ∷ []))
    first ← get (b.get_intent kb1)
    assert (is_some first)
    second ← get (b.get_intent kb2)
    assert (is_some second)
    call (b.commit_intents_batch (version kb1 10 (some v1) ∷ []) ((kb1, 1, 5) ∷ []))
    committed ← get (b.get_intent kb1)
    assert (is_none committed)
    versions ← get (b.get_committed_versions kb1)
    assert (length versions == 1)
    pending ← get (b.get_intent kb2)
    assert (is_some pending)
    call (b.remove_intents_batch ((kb2, 1, 5) ∷ []))
    aborted ← get (b.get_intent kb2)
    assert (is_none aborted)

  unfoldable pub test_strict_intent_identity : Exec S Panic (Unit {0})
  unfolding mutation_eq ts_eq
  test_strict_intent_identity = do
    call (b.put_intent (intent k1 (put i1)))
    found ← get (b.get_intent k1)
    fetched ← unwrap found
    assert (intent_eq fetched (intent k1 (put i1)))
    removed_wrong_txn ← call (b.remove_intent k1 2 5)
    assert (not removed_wrong_txn)
    removed_wrong_ts ← call (b.remove_intent k1 1 6)
    assert (not removed_wrong_ts)
    still_there ← get (b.get_intent k1)
    assert (is_some still_there)
    removed_correct ← call (b.remove_intent k1 1 5)
    assert removed_correct
    gone ← get (b.get_intent k1)
    assert (is_none gone)
