-- ===== src/ConformanceTests/Committed.antt =====
-- src/conformance.rs: the tests of `test_committed_backend_conformance`.
use nexir_mvcc_core.Prelude.{◌+◌, ◌-◌, Option, none, some, [], ◌∷◌, map, ◌==◌, length, is_empty}
use nexir_mvcc_core.Types.{Timestamp, Key, CommittedVersion}
use nexir_mvcc_core.Exec.{Exec, ◌>>=◌, ◌>>◌}
use nexir_mvcc_core.Backend.{Backend}
use nexir_mvcc_core.Codec.{to_be_bytes}
use nexir_mvcc_core.Engine.WriteBatches.{ts_eq, value_eq}
use nexir_mvcc_core.ConformanceTests.{
  Panic, keys_eq, stamps_eq, version, assert, get, call, unwrap, put_all,
}

-- `u64::MAX as u128`
abbrev pub boundary : Timestamp
boundary = 18446744073709551615

-- a version whose value is its timestamp, as 16 bytes
abbrev pub stamped_version : Timestamp → CommittedVersion
stamped_version ts = version (b'k' ∷ []) ts (some (to_be_bytes 16 ts))

-- a version whose value is its timestamp, as one byte
abbrev pub small_version : Key → Timestamp → CommittedVersion
small_version key ts = version key ts (some (ts ∷ []))

abbrev pub k : Key
k = b'k' ∷ []

abbrev pub a : Key
a = b'a' ∷ []

abbrev pub aa : Key
aa = b'a' ∷ b'a' ∷ []

abbrev pub ab : Key
ab = b'a' ∷ b'b' ∷ []

abbrev pub b_key : Key
b_key = b'b' ∷ []

abbrev pub old : Option Key
old = some (b'o' ∷ b'l' ∷ b'd' ∷ [])

abbrev pub new : Option Key
new = some (b'n' ∷ b'e' ∷ b'w' ∷ [])

abbrev pub some_value : Option Key
some_value = some (b'v' ∷ b'a' ∷ b'l' ∷ b'u' ∷ b'e' ∷ [])

module _ {S : Type 0} (b : Backend S) where
  unfoldable pub committed_versions_are_ascending_and_cross_u64 : Exec S Panic (Unit {0})
  committed_versions_are_ascending_and_cross_u64 = do
    put_all b (map stamped_version ((boundary + 1) ∷ (boundary - 1) ∷ boundary ∷ []))
    versions ← get (b.get_committed_versions k)
    assert (
        stamps_eq (map (λ v. v.commit_ts) versions)
          ((boundary - 1) ∷ boundary ∷ (boundary + 1) ∷ []))

  unfoldable pub committed_batch_and_visibility_are_conformant : Exec S Panic (Unit {0})
  unfolding value_eq ts_eq
  committed_batch_and_visibility_are_conformant = do
    call (b.put_committed_batch (version a 10 old ∷ version a 20 new ∷ version b_key 10 none ∷ []))
    found ← get (b.get_visible_committed a 15)
    visible ← unwrap found
    assert (value_eq visible.value old)
    latest ← get (b.get_latest_commit_ts a)
    assert (ts_eq latest (some 20))
    keys ← get b.all_keys
    assert (keys_eq keys (a ∷ b_key ∷ []))

  unfoldable pub committed_key_scans_and_timestamp_pages_are_conformant : Exec S Panic (Unit {0})
  committed_key_scans_and_timestamp_pages_are_conformant = do
    put_all b (
        small_version aa 10
        ∷ small_version aa 20
        ∷ small_version ab 10
        ∷ small_version b_key 10
        ∷ [])
    from_ab ← get (b.keys_from (some ab) 2)
    assert (keys_eq from_ab (ab ∷ b_key ∷ []))
    with_a ← get (b.keys_from_prefix a none 10)
    assert (keys_eq with_a (aa ∷ ab ∷ []))
    page ← get (b.get_committed_timestamps_before aa 30 2)
    assert (stamps_eq page (20 ∷ 10 ∷ []))

  unfoldable pub committed_removal_and_tombstone_collapse_are_conformant : Exec S Panic (Unit {0})
  committed_removal_and_tombstone_collapse_are_conformant = do
    call (b.put_committed_batch (version k 10 some_value ∷ version k 20 none ∷ []))
    call (b.remove_committed_version k 10)
    left ← get (b.get_committed_versions k)
    assert (length left == 1)
    call (b.collapse_tombstone k 20 [])
    versions ← get (b.get_committed_versions k)
    assert (is_empty versions)
