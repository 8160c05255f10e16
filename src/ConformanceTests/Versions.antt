-- ===== src/ConformanceTests/Versions.antt =====
-- src/conformance.rs: the tests of `test_backend_conformance` on committed versions.
use nexir_mvcc_core.Prelude.{
  ℕ, Bool, Option, none, some, some_and, List, [], ◌∷◌, map, ◌==◌, length, is_none, is_empty,
  get_elem?,
}
use nexir_mvcc_core.Ord.{bytes_eq}
use nexir_mvcc_core.Types.{Timestamp, Key, Value, CommittedVersion}
use nexir_mvcc_core.Exec.{Exec, ◌>>=◌, ◌>>◌}
use nexir_mvcc_core.Backend.{Backend}
use nexir_mvcc_core.Engine.WriteBatches.{ts_eq, value_eq}
use nexir_mvcc_core.ConformanceTests.{
  Panic, keys_eq, stamps_eq, holds, version, assert, get, call, unwrap, put_all,
}

abbrev pub k1 : Key
k1 = b'k' ∷ b'1' ∷ []

abbrev pub k2 : Key
k2 = b'k' ∷ b'2' ∷ []

abbrev pub f1 : Key
f1 = b'f' ∷ b'1' ∷ []

abbrev pub t1 : Key
t1 = b't' ∷ b'1' ∷ []

abbrev pub v10 : Option Value
v10 = some (b'v' ∷ b'1' ∷ b'0' ∷ [])

abbrev pub v20 : Option Value
v20 = some (b'v' ∷ b'2' ∷ b'0' ∷ [])

abbrev pub v30 : Option Value
v30 = some (b'v' ∷ b'3' ∷ b'0' ∷ [])

abbrev pub v1 : Option Value
v1 = some (b'v' ∷ b'1' ∷ [])

abbrev pub v2 : Option Value
v2 = some (b'v' ∷ b'2' ∷ [])

-- `versions[i].commit_ts == ts`, which panics where there is no such version
abbrev pub stamp_at : ℕ → Timestamp → List CommittedVersion → Bool
stamp_at i ts versions = some_and (get_elem? versions i) (λ v. v.commit_ts == ts)

module _ {S : Type 0} (b : Backend S) where
  unfoldable pub test_ascending_commit_ts : Exec S Panic (Unit {0})
  test_ascending_commit_ts = do
    call (b.put_committed (version k1 20 v20))
    call (b.put_committed (version k1 10 v10))
    call (b.put_committed (version k1 30 v30))
    versions ← get (b.get_committed_versions k1)
    assert (length versions == 3)
    assert (stamp_at 0 10 versions)
    assert (stamp_at 1 20 versions)
    assert (stamp_at 2 30 versions)

  unfoldable pub test_all_or_nothing_batch_persistence : Exec S Panic (Unit {0})
  test_all_or_nothing_batch_persistence = do
    call (b.put_committed_batch (version k1 10 v1 ∷ version k2 10 v2 ∷ []))
    first ← get (b.get_committed_versions k1)
    second ← get (b.get_committed_versions k2)
    assert (length first == 1)
    assert (length second == 1)

  unfoldable pub test_tombstone_preservation : Exec S Panic (Unit {0})
  unfolding value_eq
  test_tombstone_preservation = do
    call (b.put_committed (version t1 10 none))
    versions ← get (b.get_committed_versions t1)
    assert (length versions == 1)
    assert (some_and (get_elem? versions 0) (λ v. value_eq v.value none))

  -- an assertion on the version that a read at `ts` sees
  unfoldable pub assert_visible : Timestamp → Timestamp → Option Value → Exec S Panic (Unit {0})
  unfolding value_eq
  assert_visible ts commit_ts value = do
    found ← get (b.get_visible_committed f1 ts)
    visible ← unwrap found
    assert (holds commit_ts value visible)

  unfoldable pub test_fast_lookups : Exec S Panic (Unit {0})
  unfolding value_eq ts_eq assert_visible
  test_fast_lookups = do
    no_version ← get (b.get_latest_committed f1)
    assert (is_none no_version)
    no_stamp ← get (b.get_latest_commit_ts f1)
    assert (is_none no_stamp)
    not_visible ← get (b.get_visible_committed f1 100)
    assert (is_none not_visible)
    call (b.put_committed (version f1 10 v10))
    call (b.put_committed (version f1 20 none))
    call (b.put_committed (version f1 30 v30))
    found ← get (b.get_latest_committed f1)
    latest ← unwrap found
    assert (holds 30 v30 latest)
    stamp ← get (b.get_latest_commit_ts f1)
    assert (ts_eq stamp (some 30))
    before_first ← get (b.get_visible_committed f1 5)
    assert (is_none before_first)
    assert_visible 10 10 v10
    assert_visible 15 10 v10
    assert_visible 20 20 none
    at_30 ← get (b.get_visible_committed f1 30)
    visible ← unwrap at_30
    assert (visible.commit_ts == 30)
    assert_visible 100 30 v30

  unfoldable pub test_binary_handling : Exec S Panic (Unit {0})
  unfolding value_eq
  test_binary_handling = do
    call (b.put_committed (version (0 ∷ 255 ∷ 128 ∷ 64 ∷ []) 10 (some (1 ∷ 254 ∷ 127 ∷ 63 ∷ []))))
    versions ← get (b.get_committed_versions (0 ∷ 255 ∷ 128 ∷ 64 ∷ []))
    first ← unwrap (get_elem? versions 0)
    assert (bytes_eq first.key (0 ∷ 255 ∷ 128 ∷ 64 ∷ []))
    assert (value_eq first.value (some (1 ∷ 254 ∷ 127 ∷ 63 ∷ [])))

  unfoldable pub test_get_committed_timestamps_before : Exec S Panic (Unit {0})
  test_get_committed_timestamps_before = do
    put_all b (map (λ ts. version k1 ts (some (1 ∷ []))) (10 ∷ 20 ∷ 30 ∷ []))
    all ← get (b.get_committed_timestamps_before k1 30 10)
    assert (stamps_eq all (20 ∷ 10 ∷ []))
    one ← get (b.get_committed_timestamps_before k1 30 1)
    assert (stamps_eq one (20 ∷ []))
    older ← get (b.get_committed_timestamps_before k1 10 10)
    assert (is_empty older)

  unfoldable pub test_collapse_tombstone : Exec S Panic (Unit {0})
  test_collapse_tombstone = do
    put_all b (map (λ ts. version k1 ts (some (1 ∷ []))) (10 ∷ 20 ∷ []))
    call (b.put_committed (version k1 30 none))
    call (b.put_committed (version k2 10 (some (2 ∷ []))))
    call (b.collapse_tombstone k1 30 (20 ∷ 10 ∷ []))
    collapsed ← get (b.get_committed_versions k1)
    assert (is_empty collapsed)
    latest ← get (b.get_latest_committed k1)
    assert (is_none latest)
    keys ← get b.all_keys
    assert (keys_eq keys (k2 ∷ []))
    other ← get (b.get_committed_versions k2)
    assert (length other == 1)
